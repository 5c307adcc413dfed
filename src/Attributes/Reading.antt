-- ===== src/Attributes/Reading.antt =====
-- What src/item.cpp reads of an item: `readAttr` and `unserializeAttr`, with the custom attributes of src/item.h.
use zenonia.Base.{
  ℕ, zero, suc, ◌+◌, ◌-◌, ◌^◌, Bool, ◌&&◌, ◌||◌, Option, none, some, List, [], ◌∷◌, map, leb, ltb,
  ◌==◌, if◌then◌else◌, same_bytes,
}
use zenonia.Containers.{ItemType}
use zenonia.Otb.PropStream.{Stream, Shape, number, text, read, read_string, read_item}
use zenonia.Otb.PropStream as PropStream
use zenonia.Attributes.{
  CustomAttribute, string_value, int64_value, double_value, bool_value, CustomAttributeMap, Value,
  integer, string, custom, Item, has_attribute, get_existing_attr, set_attr, set_int_attr,
  set_str_attr, set_sub_type,
}

-- What a case of `readAttr` reads, but for the custom attributes; the cases that only skip bytes read a number.
unfoldable pub shape_of : ℕ → Option Shape
shape_of code =
    if (code == 15)
      || ((code == 12) || ((code == 17) || ((code == 32) || ((code == 33) || (code == 14)))))
    then some (number 1)
    else if (code == 4) || ((code == 5) || ((code == 22) || (code == 10)))
    then some (number 2)
    else if (code == 18)
        || ((code == 16)
            || ((code == 20) || ((code == 21) || ((leb 27 code && leb code 31) || (code == 35)))))
    then some (number 4)
    else if code == 8
    then some (number 5)
    else if (code == 6)
        || ((code == 7) || ((code == 19) || ((leb 24 code && leb code 26) || (code == 34))))
    then some text
    else none

-- A number of 8 bits with a sign, in 32 bits.
abbrev pub extended : ℕ → ℕ
extended n = if ltb n 128 then n else n + (2 ^ 32 - 2 ^ 8)

-- `setUniqueId`, where `game` has the answers of `addUniqueItem`.
unfoldable pub set_unique_id : (ℕ → Bool) → ℕ → Item → Item
unfolding set_int_attr
set_unique_id game n i = if has_attribute 1 i then i else if game n then set_int_attr 1 n i else i

-- What it does with a number, and with a text.
unfoldable pub store_number : (ℕ → Bool) → ItemType → ℕ → ℕ → Item → Item
unfolding set_sub_type set_int_attr set_unique_id
store_number game t code n i =
    if (code == 15) || ((code == 12) || (code == 22))
    then set_sub_type t n i
    else if code == 4
    then set_int_attr 0 (if ltb n 100 then 100 else n) i
    else if code == 5
    then set_unique_id game n i
    else if code == 18
    then set_int_attr 4 n i
    else if code == 16
    then set_int_attr 17 (if ltb n (2 ^ 31) then n else 0) i
    else if code == 17
    then (if n == 0 then i else set_int_attr 18 2 i)
    else if leb 27 code && leb code 30
    then set_int_attr (code - 18) n i
    else if code == 35
    then set_int_attr 24 n i
    else if code == 31
    then set_int_attr 13 n i
    else if code == 32
    then set_int_attr 14 (extended n) i
    else if code == 33
    then set_int_attr 15 n i
    else i

unfoldable pub store_text : ℕ → List ℕ → Item → Item
unfolding set_str_attr
store_text code bs i =
    if code == 6
    then set_str_attr 3 bs i
    else if code == 19
    then set_str_attr 5 bs i
    else if code == 7
    then set_str_attr 2 bs i
    else if leb 24 code && leb code 26
    then set_str_attr (code - 18) bs i
    else set_str_attr 23 bs i

abbrev pub store : (ℕ → Bool) → ItemType → ℕ → PropStream.Item → Item → Item
store game t code (PropStream.Item.number w n) i = store_number game t code n i
store game t code (PropStream.Item.text bs) i = store_text code bs i

-- `toLowerCaseString`, in the locale "C".
abbrev pub to_lower_case : List ℕ → List ℕ
to_lower_case bs = map (λ b. if leb 65 b && leb b 90 then b + 32 else b) bs

unfoldable pub remove_key : List ℕ → CustomAttributeMap → CustomAttributeMap
remove_key key [] = []
remove_key key ((k, v) ∷ m) =
    let rest = remove_key key m in if same_bytes k key then rest else (k, v) ∷ rest

abbrev pub map_of : Option Value → CustomAttributeMap
map_of (some (custom m)) = m
map_of (some (integer n)) = []
map_of (some (string bs)) = []
map_of none = []

-- `setCustomAttribute`
unfoldable pub set_custom_attribute : List ℕ → CustomAttribute → Item → Item
unfolding get_existing_attr set_attr remove_key
set_custom_attribute key v i =
    let lower = to_lower_case key in
    let others = remove_key lower (map_of (get_existing_attr 31 i.attributes)) in
    record i { attributes = set_attr 31 (custom ((lower, v) ∷ others)) i.attributes }

abbrev pub as_number :
    (ℕ → CustomAttribute) → Option (ℕ × Stream) → Option (CustomAttribute × Stream)
as_number kind none = none
as_number kind (some (n, s)) = some (kind n, s)

abbrev pub as_text : Option (List ℕ) × Stream → Option (CustomAttribute × Stream)
as_text (none, s) = none
as_text (some bs, s) = some (string_value bs, s)

-- `CustomAttribute::unserialize`, behind the position of the type.
unfoldable pub unserialize_value : ℕ → Stream → Option (CustomAttribute × Stream)
unfolding read read_string
unserialize_value pos s =
    if pos == 1
    then as_text (read_string s)
    else if pos == 2
    then as_number int64_value (read 8 s)
    else if pos == 3
    then as_number double_value (read 8 s)
    else if pos == 4
    then as_number bool_value (read 1 s)
    else none

unfoldable pub unserialize_custom : Stream → Option (CustomAttribute × Stream)
unfolding read unserialize_value
unserialize_custom s = elim (read 1 s) [ none ↦ none | some (pos, s') ↦ unserialize_value pos s' ]

-- A turn of the loop over custom attributes reads a key and a value.
unfoldable pub read_custom : Stream → Option (List ℕ × CustomAttribute × Stream)
unfolding read_string unserialize_custom
read_custom s =
    let (key, s') = read_string s in
    elim key [
      | none ↦ none
      | some bs ↦ elim (unserialize_custom s') [ none ↦ none | some (v, s'') ↦ some (bs, v, s'') ]
    ]

unfoldable pub read_customs : ℕ → Item → Stream → Option (Item × Stream)
unfolding read_custom set_custom_attribute
read_customs zero i s = some (i, s)
read_customs (suc size) i s = elim (read_custom s) [
  | none ↦ none
  | some (key, v, s') ↦ read_customs size (set_custom_attribute key v i) s'
]

unfoldable pub read_custom_attributes : Item → Stream → Option (Item × Stream)
unfolding read read_customs
read_custom_attributes i s = elim (read 8 s) [
  | none ↦ none
  | some (size, s') ↦ read_customs size i s'
]

-- `none` is `ATTR_READ_ERROR`.
unfoldable pub read_attr : (ℕ → Bool) → ItemType → ℕ → Item → Stream → Option (Item × Stream)
unfolding shape_of read_item store_number store_text read_custom_attributes
read_attr game t code i s = elim (shape_of code) [
  | none ↦ if code == 36 then read_custom_attributes i s else none
  | some k ↦ elim (read_item k s) [ none ↦ none | some (v, s') ↦ some (store game t code v i, s') ]
]

-- `unserializeAttr`, with as many rounds as are given: a stream at its end and a code 0 end the loop. `none` is
-- the result false; a round that is missing is false as well.
unfoldable pub unserialize_attr : (ℕ → Bool) → ItemType → ℕ → Item → Stream → Option (Item × Stream)
unfolding read read_attr
unserialize_attr game t zero i s = none
unserialize_attr game t (suc n) i s = elim (read 1 s) [
  | none ↦ some (i, s)
  | some (code, s') ↦
      let result : Option (Item × Stream) = elim (read_attr game t code i s') [
        | none ↦ none
        | some (j, s'') ↦ unserialize_attr game t n j s''
      ] in
      if code == 0 then some (i, s') else result
]
