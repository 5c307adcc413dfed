-- ===== src/Net/Message/Reading.antt =====
-- The reads of src/networkmessage.h on a message that holds the bytes which they are to find.
use zenonia.Base.{
  ℕ, ◌+◌, ◌^◌, ◌<◌, ◌≤◌, ◌≡◌, List, [], ◌∷◌, ◌++◌, map, length, All, arith, length-append,
  append-inj, append_assoc, true,
}
use zenonia.Bytes.{
  le_bytes, from_le, length-le_bytes, from_le-le_bytes, read, length-read, read-add,
}
use zenonia.Position.{Position, InWords}
use zenonia.Net.Message.{
  Message, fits, get_byte, get, get_bytes, get_string, get_position, u16, max_size,
}
use zenonia.Net.Message.Fields.{
  Field, byte, word, text, place, kind, IsValid, encode, encode_all, get_field, get_fields,
}

-- The next bytes are `bs`, within the length and the buffer.
pub record Holds (msg : Message) (bs : List ℕ) : Type 0 where
  pub bytes : read msg.buffer msg.position (length bs) ≡ bs
  pub in_length : msg.position + length bs ≤ msg.length + 8
  pub in_buffer : msg.position + length bs < max_size

unfoldable pub advance : ℕ → Message → Message
advance n msg = record msg { position = u16 (msg.position + n) }

pub advance-advance : (a b : ℕ) (msg : Message) → advance b (advance a msg) ≡ advance (a + b) msg
unfolding advance
advance-advance a b msg = ground arith

advance-zero : (msg : Message) → msg.position < 65536 → advance 0 msg ≡ msg
unfolding advance
advance-zero msg h = ground arith

module _ (msg : Message) (xs rest : List ℕ) (h : Holds msg (xs ++ rest)) where
  pub fits-Holds : fits msg (length xs) ≡ true
  unfolding fits
  fits-Holds =
      let n = length-append xs rest in
      let l = h.in_length in let b = h.in_buffer in ground (arith, n, l, b)

  split :
      (read msg.buffer msg.position (length xs) ≡ xs)
      × (read msg.buffer (msg.position + length xs) (length rest) ≡ rest)
  split = append-inj _ xs _ rest (length-read msg.buffer msg.position (length xs)) (
      cc (
        h.bytes,
        length-append xs rest,
        read-add msg.buffer msg.position (length xs) (length rest),
      ))

  pub read-Holds : read msg.buffer msg.position (length xs) ≡ xs
  read-Holds = split.0

  pub advance-Holds : Holds (advance (length xs) msg) rest
  unfolding advance
  advance-Holds =
      let n = length-append xs rest in
      let l = h.in_length in
      let b = h.in_buffer in
      let e : u16 (msg.position + length xs) ≡ msg.position + length xs = omega (arith, n, b) in
      record {
        bytes = rw e split.1;
        in_length = rw e (omega (arith, n, l));
        in_buffer = rw e (omega (arith, n, b));
      }

  pub get_bytes-Holds : get_bytes (length xs) msg ≡ (xs, advance (length xs) msg)
  unfolding get_bytes advance
  get_bytes-Holds = ground (arith, fits-Holds, read-Holds)

  pub get-Holds : get (length xs) msg ≡ (from_le xs, advance (length xs) msg)
  unfolding get advance
  get-Holds = ground (arith, fits-Holds, read-Holds)

pub get_byte-Holds :
    (msg : Message) (v : ℕ) (rest : List ℕ)
    → Holds msg (v ∷ rest)
    → get_byte msg ≡ (v, advance 1 msg)
unfolding get_byte advance read
get_byte-Holds msg v rest h =
    ground (arith, fits-Holds msg (v ∷ []) rest h, read-Holds msg (v ∷ []) rest h)

word-Holds :
    (w v : ℕ) (msg : Message) (rest : List ℕ)
    → v < 256 ^ w
    → Holds msg (le_bytes w v ++ rest)
    → get w msg ≡ (v, advance w msg)
word-Holds w v msg rest small h =
    cc (get-Holds msg (le_bytes w v) rest h, length-le_bytes w v, from_le-le_bytes w v small)

after_word :
    (w v : ℕ) (msg : Message) (rest : List ℕ)
    → Holds msg (le_bytes w v ++ rest)
    → Holds (advance w msg) rest
after_word w v msg rest h = rw (length-le_bytes w v) at (advance-Holds msg (le_bytes w v) rest h)

text-Holds :
    (bs rest : List ℕ) (msg : Message)
    → length bs ≤ 8192
    → Holds msg (le_bytes 2 (length bs) ++ (bs ++ rest))
    → get_string 0 msg ≡ (bs, advance (2 + length bs) msg)
unfolding get_string
text-Holds bs rest msg short h =
    let e = word-Holds 2 (length bs) msg (bs ++ rest) (omega arith) h in
    let h' = after_word 2 (length bs) msg (bs ++ rest) h in
    rw e (cc (get_bytes-Holds (advance 2 msg) bs rest h', advance-advance 2 (length bs) msg))

place-Holds :
    (p : Position) (rest : List ℕ) (msg : Message)
    → InWords p
    → Holds msg (le_bytes 2 p.x ++ (le_bytes 2 p.y ++ (p.z ∷ rest)))
    → get_position msg ≡ (p, advance 5 msg)
unfolding get_position
place-Holds p rest msg v h =
    let m1 = advance 2 msg in
    let m2 = advance 2 m1 in
    let h1 = after_word 2 p.x msg (le_bytes 2 p.y ++ (p.z ∷ rest)) h in
    let h2 = after_word 2 p.y m1 (p.z ∷ rest) h1 in
    ground (
      arith,
      word-Holds 2 p.x msg (le_bytes 2 p.y ++ (p.z ∷ rest)) v.x_fits h,
      word-Holds 2 p.y m1 (p.z ∷ rest) v.y_fits h1,
      get_byte-Holds m2 p.z rest h2,
      advance-advance 2 2 msg,
      advance-advance 4 1 msg,
    )

-- A read of the kind of a value finds the value, and moves past its bytes.
pub get_field-Holds :
    (f : Field) (msg : Message) (rest : List ℕ)
    → IsValid f
    → Holds msg (encode f ++ rest)
    → get_field (kind f) msg ≡ (f, advance (length (encode f)) msg)
unfolding get_field
get_field-Holds (byte v) msg rest ok h = rw (get_byte-Holds msg v rest h)
get_field-Holds (word w v) msg rest ok h = rw (word-Holds w v msg rest ok h, length-le_bytes w v)
get_field-Holds (text bs) msg rest ok h =
    let h' = rw append_assoc at h in
    rw (
      text-Holds bs rest msg ok h',
      length-append (le_bytes 2 (length bs)) bs,
      length-le_bytes 2 (length bs),
    )
get_field-Holds (place p) msg rest ok h =
    let h' = simp append_assoc at h in
    rw (
      place-Holds p rest msg ok h',
      length-append (le_bytes 2 p.x) (le_bytes 2 p.y ++ (p.z ∷ [])),
      length-append (le_bytes 2 p.y) (p.z ∷ []),
      length-le_bytes 2 p.x,
      length-le_bytes 2 p.y,
    )

-- A run of reads finds a run of values.
pub get_fields-Holds :
    (fs : List Field) (msg : Message) (rest : List ℕ)
    → All IsValid fs
    → Holds msg (encode_all fs ++ rest)
    → get_fields (map kind fs) msg ≡ (fs, advance (length (encode_all fs)) msg)
unfolding get_fields
get_fields-Holds [] msg rest ok h = let b = h.in_buffer in rw (advance-zero msg (omega (arith, b)))
get_fields-Holds (f ∷ fs) msg rest ok h =
    let h' = rw append_assoc at h in
    let later = advance-Holds msg (encode f) (encode_all fs ++ rest) h' in
    let e = get_field-Holds f msg (encode_all fs ++ rest) ok.0 h' in
    let ih = get_fields-Holds fs (advance (length (encode f)) msg) rest ok.1 later in
    rw (e, ih, advance-advance, length-append (encode f) (encode_all fs))
