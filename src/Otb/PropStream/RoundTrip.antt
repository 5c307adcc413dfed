-- ===== src/Otb/PropStream/RoundTrip.antt =====
-- What `PropWriteStream` of src/fileloader.h writes, `PropStream` reads.
use zenonia.Base.{
  ℕ, ◌^◌, ◌<◌, ◌≡◌, refl, ◌∙◌, some, List, [], ◌∷◌, ◌++◌, length, All, ltb, arith, map,
  append_assoc, append-nil, take-append, drop-append, length-append, false,
}
use zenonia.Bytes.{le_bytes, length-le_bytes, from_le-le_bytes}
use zenonia.Otb.PropStream.{
  Stream, read, read_text, read_string, write, write_string, Item, number, text, shape, FitsItem,
  write_item, read_item, write_items, read_items,
}

abbrev pub item_bytes : Item → List ℕ
item_bytes (number w v) = le_bytes w v
item_bytes (text bs) = le_bytes 2 (length bs) ++ bs

abbrev items_bytes : List Item → List ℕ
items_bytes [] = []
items_bytes (i ∷ is) = item_bytes i ++ items_bytes is

pub write_item-append :
    (i : Item) (buffer : Stream) → FitsItem i → write_item i buffer ≡ buffer ++ item_bytes i
unfolding write_item write write_string
write_item-append (number w v) buffer h = refl
write_item-append (text bs) buffer h =
    let short : ltb 65535 (length bs) ≡ false = ground arith in rw (short, append_assoc)

write_items-append :
    (is : List Item) (buffer : Stream)
    → All FitsItem is
    → write_items is buffer ≡ buffer ++ items_bytes is
unfolding write_items
write_items-append [] buffer h = rw append-nil
write_items-append (i ∷ is) buffer h = rw (write_item-append i buffer h.0) (
    write_items-append is (buffer ++ item_bytes i) h.1
    ∙ append_assoc buffer (item_bytes i) (items_bytes is))

pub read-append :
    (w v : ℕ) (rest : Stream) → v < 256 ^ w → read w (le_bytes w v ++ rest) ≡ some (v, rest)
unfolding read
read-append w v rest h =
    let n = length-le_bytes w v in
    let t = rw n at (take-append (le_bytes w v) rest) in
    let d = rw n at (drop-append (le_bytes w v) rest) in
    let enough : ltb (length (le_bytes w v ++ rest)) w ≡ false =
      ground (arith, n, length-append (le_bytes w v) rest) in
    rw (enough, t, d, from_le-le_bytes w v h)

read_text-append : (bs rest : Stream) → read_text (length bs) (bs ++ rest) ≡ some (bs, rest)
unfolding read_text
read_text-append bs rest =
    let enough : ltb (length (bs ++ rest)) (length bs) ≡ false =
      ground (arith, length-append bs rest) in
    rw (enough, take-append bs rest, drop-append bs rest)

pub read_item-append :
    (i : Item) (rest : Stream)
    → FitsItem i
    → read_item (shape i) (item_bytes i ++ rest) ≡ some (i, rest)
unfolding read_item read_string
read_item-append (number w v) rest h = ground (arith, read-append w v rest h)
read_item-append (text bs) rest h =
    let assoc = append_assoc (le_bytes 2 (length bs)) bs rest in
    let n = read-append 2 (length bs) (bs ++ rest) (omega arith) in
    rw assoc (ground (arith, n, read_text-append bs rest))

read_items-append :
    (is : List Item) (rest : Stream)
    → All FitsItem is
    → read_items (map shape is) (items_bytes is ++ rest) ≡ some (is, rest)
unfolding read_items
read_items-append [] rest h = refl
read_items-append (i ∷ is) rest h =
    let assoc = append_assoc (item_bytes i) (items_bytes is) rest in
    let one = read_item-append i (items_bytes is ++ rest) h.0 in
    rw assoc (ground (arith, one, read_items-append is rest h.1))

-- What is written to a stream is read back in order, whatever stands behind it.
pub read_items-write_items :
    (is : List Item) (rest : Stream)
    → All FitsItem is
    → read_items (map shape is) (write_items is [] ++ rest) ≡ some (is, rest)
read_items-write_items is rest h = rw (write_items-append is [] h) (read_items-append is rest h)
