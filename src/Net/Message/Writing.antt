-- ===== src/Net/Message/Writing.antt =====
-- The writes of src/networkmessage.h as one operation: each puts the bytes of its value at the
-- position, if they leave room.
use zenonia.Base.{
  ℕ, ◌+◌, ◌<◌, ◌≤◌, ◌≡◌, sym, ◌∙◌, List, [], ◌∷◌, ◌++◌, length, All, arith, length-append,
}
use zenonia.Bytes.{le_bytes, length-le_bytes, write, write-append}
use zenonia.Position.{Position}
use zenonia.Net.Message.{Message, put, add_byte, add, add_string, add_position, max_body_length}
use zenonia.Net.Message.Fields.{
  Field, encode_all, byte, word, text, place, IsValid, encode, add_field, add_fields,
}

pub put-put :
    (xs ys : List ℕ) (msg : Message)
    → msg.position + length xs < 65536
    → put ys (put xs msg) ≡ put (xs ++ ys) msg
unfolding put
put-put xs ys msg h =
    ground (arith, length-append xs ys, write-append msg.buffer msg.position xs ys)

put-nil : (msg : Message) → msg.position < 65536 → msg.length < 65536 → put [] msg ≡ msg
unfolding put write
put-nil msg h l = ground arith

length-put-lt : (xs : List ℕ) (msg : Message) → (put xs msg).length < 65536
unfolding put
length-put-lt xs msg = omega arith

pub add-put :
    (w v : ℕ) (msg : Message)
    → w + msg.position < max_body_length
    → add w v msg ≡ put (le_bytes w v) msg
unfolding add
add-put w v msg h = ground arith

pub position-put :
    (xs : List ℕ) (msg : Message)
    → msg.position + length xs < 65536
    → (put xs msg).position ≡ msg.position + length xs
unfolding put
position-put xs msg h = omega arith

add_byte-put :
    (v : ℕ) (msg : Message) → 1 + msg.position < max_body_length → add_byte v msg ≡ put (v ∷ []) msg
unfolding add_byte
add_byte-put v msg h = ground arith

add_string-put :
    (bs : List ℕ) (msg : Message)
    → length bs ≤ 8192
    → length bs + 2 + msg.position < max_body_length
    → add_string bs msg ≡ put (le_bytes 2 (length bs) ++ bs) msg
unfolding add_string
add_string-put bs msg short h = ground (
  arith,
  add-put 2 (length bs) msg,
  length-le_bytes 2 (length bs),
  put-put (le_bytes 2 (length bs)) bs msg,
)

add_position-put :
    (p : Position) (msg : Message)
    → 5 + msg.position < max_body_length
    → add_position p msg ≡ put (le_bytes 2 p.x ++ (le_bytes 2 p.y ++ (p.z ∷ []))) msg
unfolding add_position
add_position-put p msg h =
    let m1 = put (le_bytes 2 p.x) msg in
    let m2 = put (le_bytes 2 p.y) m1 in
    ground (
      arith,
      length-le_bytes 2 p.x,
      length-le_bytes 2 p.y,
      add-put 2 p.x msg,
      position-put (le_bytes 2 p.x) msg,
      add-put 2 p.y m1,
      position-put (le_bytes 2 p.y) m1,
      add_byte-put p.z m2,
      put-put (le_bytes 2 p.y) (p.z ∷ []) m1,
      put-put (le_bytes 2 p.x) (le_bytes 2 p.y ++ (p.z ∷ [])) msg,
    )

-- Each write that fits puts the bytes of its value.
pub add_field-put :
    (f : Field) (msg : Message)
    → IsValid f
    → msg.position + length (encode f) < max_body_length
    → add_field f msg ≡ put (encode f) msg
unfolding add_field
add_field-put (byte v) msg ok h = add_byte-put v msg (omega arith)
add_field-put (word w v) msg ok h = add-put w v msg (omega (arith, length-le_bytes w v))
add_field-put (text bs) msg ok h =
    add_string-put bs msg ok
      (omega (arith, length-append (le_bytes 2 (length bs)) bs, length-le_bytes 2 (length bs)))
add_field-put (place p) msg ok h = add_position-put p msg (
    omega (
      arith,
      length-append (le_bytes 2 p.x) (le_bytes 2 p.y ++ (p.z ∷ [])),
      length-append (le_bytes 2 p.y) (p.z ∷ []),
      length-le_bytes 2 p.x,
      length-le_bytes 2 p.y,
    ))

-- And so does a run of writes that fits.
pub add_fields-put :
    (fs : List Field) (msg : Message)
    → All IsValid fs
    → msg.position + length (encode_all fs) < max_body_length
    → msg.length < 65536
    → add_fields fs msg ≡ put (encode_all fs) msg
unfolding add_fields
add_fields-put [] msg ok h l = sym (put-nil msg (omega arith) l)
add_fields-put (f ∷ fs) msg ok h l =
    let room : msg.position + length (encode f) < max_body_length =
      omega (arith, length-append (encode f) (encode_all fs)) in
    let there = position-put (encode f) msg (omega arith) in
    let rest =
      add_fields-put fs (put (encode f) msg) ok.1
        (omega (arith, length-append (encode f) (encode_all fs))) (length-put-lt (encode f) msg) in
    rw (add_field-put f msg ok.0 room) (rest ∙ put-put (encode f) (encode_all fs) msg (omega arith))
