-- ===== src/Net/Message/Bounds.antt =====
-- Where src/networkmessage.h and src/networkmessage.cpp write: numbers, texts, positions, item ids, bytes and padding,
-- one after another. `addDouble` is not among them.
use zenonia.Base.{ℕ, ◌+◌, ◌<◌, ◌≤◌, ◌≡◌, Bool, List, [], ◌∷◌, length, true, false, ◌||◌}
use zenonia.Position.{Position}
use zenonia.Net.Message.{Message, add_item_id, add_bytes, add_padding_bytes, max_body_length}
use zenonia.Net.Message.Fields.{Field, add_field}

pub data Write : Type 0 where
  field : Field → Write
  item_id : ℕ → Write
  bytes : List ℕ → Write
  padding : ℕ → Write

abbrev pub is_padding : Write → Bool
is_padding (field f) = false
is_padding (item_id n) = false
is_padding (bytes bs) = false
is_padding (padding n) = true

unfoldable pub perform : (ℕ → ℕ) → Write → Message → Message
perform client_id (field f) msg = add_field f msg
perform client_id (item_id n) msg = add_item_id client_id n msg
perform client_id (bytes bs) msg = add_bytes bs msg
perform client_id (padding n) msg = add_padding_bytes n msg

unfoldable pub perform_all : (ℕ → ℕ) → List Write → Message → Message
perform_all client_id [] msg = msg
perform_all client_id (w ∷ ws) msg = perform_all client_id ws (perform client_id w msg)

abbrev pub has_padding : List Write → Bool
has_padding [] = false
has_padding (w ∷ ws) = is_padding w || has_padding ws

-- What writes keep: the bytes before the position and those from the end of the body on. Without padding a position
-- that is 8 ahead of the length stays so.
pub record Within (padded : Bool) (msg msg' : Message) : Type 0 where
  pub room : msg'.position < max_body_length
  pub grows : msg.position ≤ msg'.position
  pub front_kept : (i : ℕ) → i < msg.position → msg'.buffer i ≡ msg.buffer i
  pub beyond : (i : ℕ) → max_body_length ≤ i → msg'.buffer i ≡ msg.buffer i
  pub counted : padded ≡ false → msg.position ≡ msg.length + 8 → msg'.position ≡ msg'.length + 8
