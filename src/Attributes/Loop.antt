-- ===== src/Attributes/Loop.antt =====
-- What `serializeAttr` of src/item.cpp writes, `unserializeAttr` reads part by part.
use zenonia.Base.{
  Bool, ℕ, zero, suc, ◌<◌, ◌≡◌, refl, ap, ◌∙◌, true, false, none, some, List, [], ◌∷◌, ◌++◌,
  append_assoc, append-nil, length, All, ◌==◌, if◌then◌else◌, arith,
}
use zenonia.Bytes.{le_bytes}
use zenonia.Containers.{ItemType}
use zenonia.Otb.PropStream.{Stream, Shape, shape, FitsItem, write, write_item, read, read_item}
use zenonia.Otb.PropStream as PropStream
use zenonia.Otb.PropStream.RoundTrip.{item_bytes, write_item-append, read-append, read_item-append}
use zenonia.Attributes.{Item, Part, write_parts}
use zenonia.Attributes.Reading.{shape_of, store, read_attr, unserialize_attr}

-- A part that is written has a code of its own that a case reads back, and a value that fits.
abbrev pub IsRead : Part → Type 0
IsRead (c, code, v) =
    c ≡ true → (shape_of code ≡ some (shape v)) × FitsItem v × (0 < code) × (code < 256)

abbrev pub part_bytes : Part → Stream
part_bytes (c, code, v) = if c then le_bytes 1 code ++ item_bytes v else []

abbrev pub parts_bytes : List Part → Stream
parts_bytes [] = []
parts_bytes (p ∷ ps) = part_bytes p ++ parts_bytes ps

-- What the parts do to an item when they are read.
abbrev pub store_all : (ℕ → Bool) → ItemType → List Part → Item → Item
store_all game t [] i = i
store_all game t ((c, code, v) ∷ ps) i =
    store_all game t ps (if c then store game t code v i else i)

pub write_parts-append :
    (ps : List Part) (buffer : Stream)
    → All IsRead ps
    → write_parts ps buffer ≡ buffer ++ parts_bytes ps
unfolding write_parts write
write_parts-append [] buffer h = rw append-nil
write_parts-append ((true, code, v) ∷ ps) buffer h =
    rw (write_item-append v (buffer ++ le_bytes 1 code) (h.0 refl).1) (
      write_parts-append ps ((buffer ++ le_bytes 1 code) ++ item_bytes v) h.1
      ∙ simp append_assoc refl)
write_parts-append ((false, code, v) ∷ ps) buffer h = write_parts-append ps buffer h.1

module _ (game : ℕ → Bool) (t : ItemType) where
  pub read_attr-append :
      (code : ℕ) (v : PropStream.Item) (i : Item) (s : Stream)
      → shape_of code ≡ some (shape v)
      → FitsItem v
      → read_attr game t code i (item_bytes v ++ s) ≡ some (store game t code v i, s)
  unfolding read_attr
  read_attr-append code v i s kind fits = rw (kind, read_attr) (rw (read_item-append v s fits) refl)

  pub round :
      (n : ℕ) (i : Item) (s : Stream) (code : ℕ) (s' : Stream)
      → read 1 s ≡ some (code, s')
      → unserialize_attr game t (suc n) i s ≡ (
          if code == 0 then some (i, s') else (elim (read_attr game t code i s') [
            | none ↦ none
            | some (j, s'') ↦ unserialize_attr game t n j s''
          ]))
  unfolding unserialize_attr
  round n i s code s' e = rw (e, unserialize_attr) refl

  pub unserialize_attr-append :
      (ps : List Part) (n : ℕ) (i : Item) (more : Stream)
      → All IsRead ps
      → length ps < n
      → unserialize_attr game t n i (parts_bytes ps ++ 0 ∷ more)
        ≡ some (store_all game t ps i, more)
  unfolding le_bytes
  unserialize_attr-append ps zero i more h enough = absurd (omega arith)
  unserialize_attr-append [] (suc n) i more h enough =
      round n i (0 ∷ more) 0 more (read-append 1 0 more (omega arith))
  unserialize_attr-append ((true, code, v) ∷ ps) (suc n) i more h enough =
      let known = h.0 refl in
      let s = item_bytes v ++ (parts_bytes ps ++ 0 ∷ more) in
      let live : (code == 0) ≡ false = ground (arith, known.2) in
      ap (unserialize_attr game t (suc n) i) (simp append_assoc refl)
      ∙ round n i (le_bytes 1 code ++ s) code s (read-append 1 code s (omega (arith, known.3)))
      ∙ rw (live, read_attr-append code v i (parts_bytes ps ++ 0 ∷ more) known.0 known.1)
          (unserialize_attr-append ps n (store game t code v i) more h.1 (omega arith))
  unserialize_attr-append ((false, code, v) ∷ ps) (suc n) i more h enough =
      unserialize_attr-append ps (suc n) i more h.1 (omega arith)
