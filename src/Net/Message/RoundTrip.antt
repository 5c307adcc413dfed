-- ===== src/Net/Message/RoundTrip.antt =====
-- What a message written by src/networkmessage.h gives back when it is read from its start.
use zenonia.Base.{
  ℕ, ◌+◌, ◌<◌, ◌≡◌, refl, List, [], ◌++◌, map, length, All, arith, append-nil, false,
}
use zenonia.Bytes.{Memory, read-write_self}
use zenonia.Net.Message.{Message, fresh, put, max_body_length}
use zenonia.Net.Message.Fields.{Field, kind, IsValid, encode_all, add_fields, get_fields}
use zenonia.Net.Message.Writing.{add_fields-put}
use zenonia.Net.Message.Reading.{Holds, advance, get_fields-Holds}

-- The message as its receiver has it: the same bytes and length, the position at the body.
abbrev pub rewind : Message → Message
rewind msg = record msg { position = 8 }

put-fresh-Holds :
    (bs : List ℕ) (m : Memory)
    → 8 + length bs < max_body_length
    → Holds (rewind (put bs (fresh m))) (bs ++ [])
unfolding put fresh
put-fresh-Holds bs m h =
    rw append-nil
      (record { bytes = read-write_self m 8 bs; in_length = omega arith; in_buffer = omega arith })

-- Values that fit are read back as they were written, in their order and with no overrun.
pub get_fields-add_fields :
    (fs : List Field) (m : Memory)
    → All IsValid fs
    → 8 + length (encode_all fs) < max_body_length
    → let (back, after) = get_fields (map kind fs) (rewind (add_fields fs (fresh m))) in
      (back ≡ fs) × (after.overrun ≡ false)
unfolding fresh put advance
get_fields-add_fields fs m ok h =
    let w = add_fields-put fs (fresh m) ok h (omega arith) in
    let r = get_fields-Holds fs _ [] ok (put-fresh-Holds (encode_all fs) m h) in
    rw (w, r) (refl, refl)
