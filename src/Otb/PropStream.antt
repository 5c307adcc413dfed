-- ===== src/Otb/PropStream.antt =====
-- `PropStream` and `PropWriteStream` of src/fileloader.h. A stream to read is the bytes between its
-- two pointers, and one to write the bytes in its buffer.
pub mod RoundTrip
use zenonia.Base.{
  ℕ, zero, suc, ◌+◌, ◌*◌, ◌^◌, ◌<◌, ◌≤◌, ◌≡◌, refl, ap, ◌∙◌, Option, none, some, List, [], ◌∷◌,
  ◌++◌, length, take, drop, All, ltb, if◌then◌else◌, arith, map, append_assoc, append-nil,
  take-append, drop-append, length-append, Bool, true, false, Bool-cases, inl, inr,
}
use zenonia.Bytes.{le_bytes, from_le, length-le_bytes, from_le-le_bytes}

abbrev pub Stream : Type 0
Stream = List ℕ

-- `read<T>` for an unsigned type of `w` bytes; `none` is the result false, which changes nothing.
unfoldable pub read : ℕ → Stream → Option (ℕ × Stream)
read w s = if ltb (length s) w then none else some (from_le (take w s), drop w s)

unfoldable pub read_text : ℕ → Stream → Option (List ℕ × Stream)
read_text n s = if ltb (length s) n then none else some (take n s, drop n s)

-- `readString`. A text that is too short leaves the pointer behind the length.
unfoldable pub read_string : Stream → Option (List ℕ) × Stream
unfolding read_text
read_string s = elim (read 2 s) [
  | none ↦ (none, s)
  | some (n, s') ↦ elim (read_text n s') [ none ↦ (none, s') | some (bs, s'') ↦ (some bs, s'') ]
]

unfoldable pub skip : ℕ → Stream → Option Stream
skip n s = if ltb (length s) n then none else some (drop n s)

-- `write<T>`
unfoldable pub write : ℕ → ℕ → Stream → Stream
write w v buffer = buffer ++ le_bytes w v

-- `writeString`: a text that its length does not fit is written as the empty one.
unfoldable pub write_string : List ℕ → Stream → Stream
unfolding write
write_string bs buffer =
    if ltb 65535 (length bs) then write 2 0 buffer else write 2 (length bs) buffer ++ bs

-- What a call of a stream puts or gets.
pub data Item : Type 0 where
  number : ℕ → ℕ → Item
  text : List ℕ → Item

pub data Shape : Type 0 where
  number : ℕ → Shape
  text : Shape

abbrev pub shape : Item → Shape
shape (number w v) = Shape.number w
shape (text bs) = Shape.text

abbrev pub FitsItem : Item → Type 0
FitsItem (number w v) = v < 256 ^ w
FitsItem (text bs) = length bs ≤ 65535

unfoldable pub write_item : Item → Stream → Stream
write_item (number w v) buffer = write w v buffer
write_item (text bs) buffer = write_string bs buffer

unfoldable pub read_number : ℕ → Stream → Option (Item × Stream)
read_number w s = elim (read w s) [ none ↦ none | some (v, s') ↦ some (Item.number w v, s') ]

unfoldable pub read_text_item : Stream → Option (Item × Stream)
read_text_item s =
    let (found, s') = read_string s in
    elim found [ none ↦ none | some bs ↦ some (Item.text bs, s') ]

unfoldable pub read_item : Shape → Stream → Option (Item × Stream)
unfolding read_number read_text_item
read_item (number w) s = read_number w s
read_item text s = read_text_item s

unfoldable pub write_items : List Item → Stream → Stream
write_items [] buffer = buffer
write_items (i ∷ is) buffer = write_items is (write_item i buffer)

unfoldable pub read_items : List Shape → Stream → Option (List Item × Stream)
read_items [] s = some ([], s)
read_items (k ∷ ks) s = elim (read_item k s) [
  | none ↦ none
  | some (i, s') ↦ elim (read_items ks s') [ none ↦ none | some (is, s'') ↦ some (i ∷ is, s'') ]
]
