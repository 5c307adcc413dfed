-- ===== src/Net/Message/Fields.antt =====
-- The values that src/networkmessage.h writes and reads, their bytes, and runs of them.
use zenonia.Base.{ℕ, ◌^◌, ◌<◌, ◌≤◌, List, [], ◌∷◌, ◌++◌, length}
use zenonia.Bytes.{le_bytes}
use zenonia.Position.{Position, InWords}
use zenonia.Net.Message.{
  Message, get_byte, get, get_string, get_position, add_byte, add, add_string, add_position,
}

pub data Field : Type 0 where
  byte : ℕ → Field
  word : ℕ → ℕ → Field
  text : List ℕ → Field
  place : Position → Field

pub data Kind : Type 0 where
  byte : Kind
  word : ℕ → Kind
  text : Kind
  place : Kind

abbrev pub kind : Field → Kind
kind (byte v) = Kind.byte
kind (word w v) = Kind.word w
kind (text bs) = Kind.text
kind (place p) = Kind.place

-- What fits its type; `addString` refuses longer texts.
abbrev pub IsValid : Field → Type 0
IsValid (byte v) = v < 256
IsValid (word w v) = v < 256 ^ w
IsValid (text bs) = length bs ≤ 8192
IsValid (place p) = InWords p

-- The bytes of a value on the wire.
abbrev pub encode : Field → List ℕ
encode (byte v) = v ∷ []
encode (word w v) = le_bytes w v
encode (text bs) = le_bytes 2 (length bs) ++ bs
encode (place p) = le_bytes 2 p.x ++ (le_bytes 2 p.y ++ (p.z ∷ []))

abbrev pub encode_all : List Field → List ℕ
encode_all [] = []
encode_all (f ∷ fs) = encode f ++ encode_all fs

unfoldable pub add_field : Field → Message → Message
add_field (byte v) msg = add_byte v msg
add_field (word w v) msg = add w v msg
add_field (text bs) msg = add_string bs msg
add_field (place p) msg = add_position p msg

unfoldable pub get_field : Kind → Message → Field × Message
get_field byte msg = let (v, msg') = get_byte msg in (Field.byte v, msg')
get_field (word w) msg = let (v, msg') = get w msg in (Field.word w v, msg')
get_field text msg = let (bs, msg') = get_string 0 msg in (Field.text bs, msg')
get_field place msg = let (p, msg') = get_position msg in (Field.place p, msg')

unfoldable pub add_fields : List Field → Message → Message
add_fields [] msg = msg
add_fields (f ∷ fs) msg = add_fields fs (add_field f msg)

unfoldable pub get_fields : List Kind → Message → List Field × Message
get_fields [] msg = ([], msg)
get_fields (k ∷ ks) msg =
    let (f, msg') = get_field k msg in let (fs, msg'') = get_fields ks msg' in (f ∷ fs, msg'')
