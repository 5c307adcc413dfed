-- ===== src/Net/Message.antt =====
-- `NetworkMessage`: src/networkmessage.h and src/networkmessage.cpp. A message is a buffer with the
-- length, the position and the overrun flag of `NetworkMessageInfo`, the first two of them
-- `uint16_t`. `addDouble` is left out, since there are no floats.
pub mod Fields
pub mod Writing
pub mod Reading
pub mod RoundTrip
pub mod Bounds
pub mod Overrun
use zenonia.Base.{
  ℕ, zero, suc, ◌+◌, ◌-◌, ◌*◌, ◌%◌, ◌<◌, ◌≤◌, Bool, true, false, not, ◌&&◌, ◌||◌, List, [], ◌∷◌,
  ltb, leb, ◌==◌, if◌then◌else◌, length,
}
use zenonia.Bytes.{Memory, read, write, poke, le_bytes, from_le}
use zenonia.Position.{Position}

abbrev pub max_size : ℕ
max_size = 24590

-- `MAX_BODY_LENGTH`: the maximum size without the headers.
abbrev pub max_body_length : ℕ
max_body_length = max_size - 2 - 4 - 8

abbrev pub initial_buffer_position : ℕ
initial_buffer_position = 8

abbrev pub u16 : ℕ → ℕ
u16 n = n % 65536

pub record Message : Type 0 where
  pub length : ℕ
  pub position : ℕ
  pub overrun : Bool
  pub buffer : Memory

-- What the initialisers of `NetworkMessageInfo` give, on a buffer that they leave alone.
unfoldable pub fresh : Memory → Message
fresh m = record { length = 0; position = initial_buffer_position; overrun = false; buffer = m }

unfoldable pub reset : Message → Message
reset msg = fresh msg.buffer

unfoldable pub can_add : Message → ℕ → Bool
can_add msg size = ltb (size + msg.position) max_body_length

-- The differences are of type `int`; a negative one, like 0, is at most every size.
unfoldable pub fits : Message → ℕ → Bool
fits msg size =
    not (ltb (msg.length + 8) (msg.position + size) || leb (max_size - msg.position) size)

-- `canRead` sets the flag when it refuses.
unfoldable pub can_read : Message → ℕ → Bool × Message
unfolding fits
can_read msg size = if fits msg size then (true, msg) else (false, record msg { overrun = true })

unfoldable pub get_byte : Message → ℕ × Message
unfolding can_read
get_byte msg =
    let (ok, msg') = can_read msg 1 in
    if not ok
    then (0, msg')
    else (msg'.buffer msg'.position, record msg' { position = u16 (msg'.position + 1) })

unfoldable pub get_previous_byte : Message → ℕ × Message
get_previous_byte msg =
    let p = u16 (msg.position + 65535) in (msg.buffer p, record msg { position = p })

-- `get<T>()` for an unsigned type of `w` bytes.
unfoldable pub get : ℕ → Message → ℕ × Message
unfolding can_read
get w msg =
    let (ok, msg') = can_read msg w in
    if not ok then (0, msg') else (
      from_le (read msg'.buffer msg'.position w),
      record msg' { position = u16 (msg'.position + w) },
    )

unfoldable pub get_bytes : ℕ → Message → List ℕ × Message
unfolding can_read
get_bytes n msg =
    let (ok, msg') = can_read msg n in
    if not ok
    then ([], msg')
    else (read msg'.buffer msg'.position n, record msg' { position = u16 (msg'.position + n) })

-- `getString`; the default length 0 stands for the `uint16_t` in front of the text.
unfoldable pub get_string : ℕ → Message → List ℕ × Message
get_string string_len msg =
    if string_len == 0
    then (let (n, msg') = get 2 msg in get_bytes n msg')
    else get_bytes string_len msg

unfoldable pub get_position : Message → Position × Message
get_position msg =
    let (x, m1) = get 2 msg in
    let (y, m2) = get 2 m1 in let (z, m3) = get_byte m2 in (record { x = x; y = y; z = z }, m3)

-- The count is an `int16_t`, given by its bit pattern.
unfoldable pub skip_bytes : ℕ → Message → Message
skip_bytes count msg = record msg { position = u16 (msg.position + count) }

-- The bytes that a write puts at the position, which moves past them as the length grows.
unfoldable pub put : List ℕ → Message → Message
put bs msg = record {
  length = u16 (msg.length + length bs);
  position = u16 (msg.position + length bs);
  overrun = msg.overrun;
  buffer = write msg.buffer msg.position bs;
}

unfoldable pub add_byte : ℕ → Message → Message
unfolding can_add
add_byte value msg = if not (can_add msg 1) then msg else put (value ∷ []) msg

-- `add<T>` for an unsigned type of `w` bytes.
unfoldable pub add : ℕ → ℕ → Message → Message
unfolding can_add
add w value msg = if not (can_add msg w) then msg else put (le_bytes w value) msg

unfoldable pub add_bytes : List ℕ → Message → Message
unfolding can_add
add_bytes bs msg = if not (can_add msg (length bs)) || ltb 8192 (length bs) then msg else put bs msg

abbrev pub filler : ℕ → List ℕ
filler zero = []
filler (suc n) = 0x33 ∷ filler n

-- The position stays: padding counts as content, and the next write overwrites it.
unfoldable pub add_padding_bytes : ℕ → Message → Message
unfolding can_add
add_padding_bytes n msg = if not (can_add msg n) then msg else record msg {
  length = u16 (msg.length + n);
  buffer = write msg.buffer msg.position (filler n);
}

unfoldable pub add_string : List ℕ → Message → Message
unfolding can_add
add_string value msg =
    if not (can_add msg (length value + 2)) || ltb 8192 (length value)
    then msg
    else put value (add 2 (length value) msg)

unfoldable pub add_position : Position → Message → Message
add_position p msg = add_byte p.z (add 2 p.y (add 2 p.x msg))

-- The client's id of an item is a table of the item loader.
unfoldable pub add_item_id : (ℕ → ℕ) → ℕ → Message → Message
add_item_id client_id item_id msg = add 2 (client_id item_id) msg

unfoldable pub set_length : ℕ → Message → Message
set_length n msg = record msg { length = u16 n }

-- `getLengthHeader`: the two bytes at the front, lowest first.
unfoldable pub get_length_header : Message → ℕ
get_length_header msg = u16 (msg.buffer 0 + 256 * msg.buffer 1)

unfoldable pub decode_header : Message → ℕ × Message
decode_header msg =
    let n = u16 (msg.buffer 0 + 256 * msg.buffer 1) in (n, record msg { length = n })

-- `getBodyBuffer` returns the offset at which the body is read in, and moves there.
unfoldable pub get_body_buffer : Message → ℕ × Message
get_body_buffer msg = (2, record msg { position = 2 })
