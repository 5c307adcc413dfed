-- ===== src/Attributes.antt =====
-- `ItemAttributes` of src/item.h and src/item.cpp, and what src/item.cpp writes and reads of an item. A type of
-- attributes is the number of its bit, an integer its 32 bits, a text its bytes.
pub mod Store
pub mod Reading
pub mod Rounds
pub mod Restored
pub mod Saved
pub mod Effects
pub mod Loop
use zenonia.Base.{
  ℕ, zero, suc, ◌+◌, ◌-◌, ◌*◌, ◌%◌, ◌^◌, Bool, true, false, not, ◌&&◌, ◌||◌, Option, none, some,
  List, [], ◌∷◌, length, leb, ltb, ◌==◌, if◌then◌else◌, update,
}
use zenonia.Containers.{ItemType}
use zenonia.Otb.PropStream.{Stream, write, write_item}
use zenonia.Otb.PropStream as PropStream

-- `CustomAttribute`: a floating point value is its bits, a truth value its byte.
pub data CustomAttribute : Type 0 where
  string_value : List ℕ → CustomAttribute
  int64_value double_value bool_value : ℕ → CustomAttribute

abbrev pub CustomAttributeMap : Type 0
CustomAttributeMap = List (List ℕ × CustomAttribute)

pub data Value : Type 0 where
  integer : ℕ → Value
  string : List ℕ → Value
  custom : CustomAttributeMap → Value

-- `attributeBits`, and the list of attributes.
pub record ItemAttributes : Type 0 where
  pub bits : ℕ → Bool
  pub attributes : List (ℕ × Value)

-- The bits of 0x7FFE13 and of 0x8001EC.
abbrev pub is_int_attr_type : ℕ → Bool
is_int_attr_type k = leb k 1 || ((k == 4) || (leb 9 k && leb k 22))

abbrev pub is_str_attr_type : ℕ → Bool
is_str_attr_type k = (leb 2 k && leb k 3) || ((leb 5 k && leb k 8) || (k == 23))

unfoldable pub find : ℕ → List (ℕ × Value) → Option Value
find k [] = none
find k ((j, v) ∷ l) = let rest = find k l in if j == k then some v else rest

unfoldable pub put : ℕ → Value → List (ℕ × Value) → List (ℕ × Value)
put k v [] = []
put k v ((j, u) ∷ l) = let rest = put k v l in if j == k then (j, v) ∷ l else (j, u) ∷ rest

-- `getExistingAttr`
unfoldable pub get_existing_attr : ℕ → ItemAttributes → Option Value
unfolding find
get_existing_attr k a = if a.bits k then find k a.attributes else none

-- `getAttr` with a write to what it gives: an attribute that is there, or a new one at the front.
unfoldable pub set_attr : ℕ → Value → ItemAttributes → ItemAttributes
unfolding get_existing_attr put
set_attr k v a = elim (get_existing_attr k a) [
  | some old ↦ record a { attributes = put k v a.attributes }
  | none ↦ record { bits = update k true a.bits; attributes = (k, v) ∷ a.attributes }
]

-- `Item`: its count and its attributes; its type is an argument.
pub record Item : Type 0 where
  pub count : ℕ
  pub attributes : ItemAttributes

abbrev pub has_attribute : ℕ → Item → Bool
has_attribute k i = i.attributes.bits k

abbrev pub integer_of : Option Value → ℕ
integer_of (some (integer n)) = n
integer_of (some (string bs)) = 0
integer_of (some (custom m)) = 0
integer_of none = 0

abbrev pub string_of : Option Value → List ℕ
string_of (some (string bs)) = bs
string_of (some (integer n)) = []
string_of (some (custom m)) = []
string_of none = []

unfoldable pub get_int_attr : ℕ → Item → ℕ
unfolding get_existing_attr
get_int_attr k i = if is_int_attr_type k then integer_of (get_existing_attr k i.attributes) else 0

unfoldable pub get_str_attr : ℕ → Item → List ℕ
unfolding get_existing_attr
get_str_attr k i = if is_str_attr_type k then string_of (get_existing_attr k i.attributes) else []

unfoldable pub set_int_attr : ℕ → ℕ → Item → Item
unfolding set_attr
set_int_attr k n i =
    if is_int_attr_type k then record i { attributes = set_attr k (integer n) i.attributes } else i

abbrev pub is_empty : List ℕ → Bool
is_empty [] = true
is_empty (b ∷ bs) = false

unfoldable pub set_str_attr : ℕ → List ℕ → Item → Item
unfolding set_attr
set_str_attr k bs i =
    if is_str_attr_type k && not (is_empty bs)
    then record i { attributes = set_attr k (string bs) i.attributes }
    else i

-- `getSubType` and `setSubType`
unfoldable pub get_sub_type : ItemType → Item → ℕ
unfolding get_int_attr
get_sub_type t i =
    if t.fluid
    then get_int_attr 21 i % 2 ^ 16
    else if t.stackable
    then i.count
    else if t.charges == 0
    then i.count
    else get_int_attr 20 i % 2 ^ 16

unfoldable pub set_sub_type : ItemType → ℕ → Item → Item
unfolding set_int_attr
set_sub_type t n i =
    let counted : Item = record i { count = n % 2 ^ 8 } in
    if t.fluid
    then set_int_attr 21 n i
    else if t.stackable
    then counted
    else if t.charges == 0
    then counted
    else set_int_attr 20 n i

-- What is written: whether it is, under which code, and the value.
abbrev pub Part : Type 0
Part = Bool × ℕ × PropStream.Item

abbrev pub int_part : ℕ → ℕ → ℕ → Item → Part
int_part code width k i =
    (has_attribute k i, code, PropStream.Item.number width (get_int_attr k i % 256 ^ width))

abbrev pub str_part : ℕ → ℕ → Item → Part
str_part code k i = (has_attribute k i, code, PropStream.Item.text (get_str_attr k i))

abbrev pub filled_part : ℕ → ℕ → Item → Part
filled_part code k i =
    (not (is_empty (get_str_attr k i)), code, PropStream.Item.text (get_str_attr k i))

-- The writes of `serializeAttr`, in their order, but for custom attributes.
abbrev pub parts : ItemType → Item → List Part
parts t i =
    (t.stackable || t.fluid, 15, PropStream.Item.number 1 (get_sub_type t i % 256))
    ∷ (
      not (get_int_attr 20 i % 2 ^ 16 == 0),
      22,
      PropStream.Item.number 2 (get_int_attr 20 i % 2 ^ 16),
    )
    ∷ (
      t.moveable && not (get_int_attr 0 i % 2 ^ 16 == 0),
      4,
      PropStream.Item.number 2 (get_int_attr 0 i % 2 ^ 16),
    )
    ∷ filled_part 6 3 i
    ∷ (not (get_int_attr 4 i == 0), 18, PropStream.Item.number 4 (get_int_attr 4 i % 256 ^ 4))
    ∷ filled_part 19 5 i
    ∷ filled_part 7 2 i
    ∷ int_part 16 4 17 i
    ∷ (
      (get_int_attr 18 i == 1) || (get_int_attr 18 i == 2),
      17,
      PropStream.Item.number 1 (get_int_attr 18 i % 256),
    )
    ∷ str_part 24 6 i
    ∷ str_part 25 7 i
    ∷ str_part 26 8 i
    ∷ int_part 27 4 9 i
    ∷ int_part 28 4 10 i
    ∷ int_part 29 4 11 i
    ∷ int_part 30 4 12 i
    ∷ int_part 35 4 24 i
    ∷ int_part 31 4 13 i
    ∷ int_part 32 1 14 i
    ∷ int_part 33 1 15 i
    ∷ str_part 34 23 i
    ∷ []

unfoldable pub write_parts : List Part → Stream → Stream
write_parts [] buffer = buffer
write_parts ((c, code, v) ∷ ps) buffer =
    write_parts ps (if c then write_item v (write 1 code buffer) else buffer)

unfoldable pub serialize_attr : ItemType → Item → Stream → Stream
unfolding write_parts get_sub_type get_int_attr get_str_attr
serialize_attr t i buffer = write_parts (parts t i) buffer
