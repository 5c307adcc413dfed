-- ===== src/Tests/AttributesTests.antt =====
-- src/item.cpp on a named sword and on one with slots for imbuements.
use zenonia.Base.{
  arith, ℕ, ◌≡◌, refl, inl, Bool, true, false, Option, none, some, List, [], ◌∷◌, ◌++◌,
}
use zenonia.Containers.{ItemType}
use zenonia.Attributes.{
  Value, custom, bool_value, get_existing_attr, Item, find, has_attribute, get_int_attr,
  set_int_attr, set_str_attr, serialize_attr,
}
use zenonia.Attributes.Reading.{unserialize_attr, extended}
use zenonia.Attributes.Loop.{parts_bytes}
use zenonia.Attributes.Rounds.{unserialize_attr-wrong}
use zenonia.Otb.PropStream as PropStream
use zenonia.Attributes.Restored.{Restored}

abbrev sword : ItemType
sword = record {
  weight = 3500;
  stackable = false;
  pickupable = true;
  moveable = true;
  fluid = false;
  charges = 0;
}

-- No unique id is taken.
abbrev untaken : ℕ → Bool
untaken n = true

abbrev fresh_item : Item
fresh_item = record { count = 1; attributes = record { bits = λ k. false; attributes = [] } }

-- Its name is two letters, its hit chance -1.
abbrev named : Item
named = set_int_attr 14 4294967295 (set_int_attr 10 20 (set_str_attr 6 (65 ∷ 66 ∷ []) fresh_item))

-- The slots for imbuements are not among the types of integers.
slots_lost : get_int_attr 24 (set_int_attr 24 3 fresh_item) ≡ 0
unfolding set_int_attr get_int_attr
slots_lost = refl

written : serialize_attr sword named [] ≡ 24 ∷ 2 ∷ 0 ∷ 65 ∷ 66 ∷ 28 ∷ 20 ∷ 0 ∷ 0 ∷ 0 ∷ 32 ∷ 255 ∷ []
unfolding serialize_attr set_int_attr set_str_attr zenonia.Otb.PropStream.write_item
    zenonia.Otb.PropStream.write zenonia.Otb.PropStream.write_string zenonia.Bytes.le_bytes
written = refl

-- An attack, then the code of a container's items.
unserialize_attr-wrong_example :
    unserialize_attr untaken sword 30 fresh_item
      (parts_bytes ((true, 28, PropStream.Item.number 4 20) ∷ []) ++ 23 ∷ 1 ∷ [])
    ≡ none
unfolding zenonia.Attributes.Reading.shape_of
unserialize_attr-wrong_example =
    unserialize_attr-wrong untaken sword ((true, 28, PropStream.Item.number 4 20) ∷ []) 30
      fresh_item 23 (1 ∷ []) ((λ c. (refl, ground arith, ground arith, ground arith)), tt)
      (ground arith) (ground arith) (ground arith) (inl (refl, inl refl))

-- Fifty coins with three charges are three coins afterwards.
abbrev coin : ItemType
coin = record {
  weight = 10;
  stackable = true;
  pickupable = true;
  moveable = true;
  fluid = false;
  charges = 0;
}

abbrev coins : Item
coins = set_int_attr 20 3 (record { count = 50; attributes = fresh_item.attributes })

abbrev count_of : Option (Item × List ℕ) → ℕ
count_of none = 0
count_of (some (i, s)) = i.count

coins_lost : count_of (unserialize_attr untaken coin 5 fresh_item (15 ∷ 50 ∷ 22 ∷ 3 ∷ 0 ∷ [])) ≡ 3
unfolding unserialize_attr zenonia.Attributes.Reading.read_attr zenonia.Otb.PropStream.read
    zenonia.Otb.PropStream.read_item zenonia.Attributes.Reading.shape_of
    zenonia.Attributes.Reading.store_number zenonia.Bytes.from_le
coins_lost = refl

coins_written : serialize_attr coin coins [] ≡ 15 ∷ 50 ∷ 22 ∷ 3 ∷ 0 ∷ []
unfolding serialize_attr set_int_attr set_str_attr zenonia.Otb.PropStream.write_item
    zenonia.Otb.PropStream.write zenonia.Otb.PropStream.write_string zenonia.Bytes.le_bytes
coins_written = refl

-- One custom attribute, under the key "A", with a truth value, is stored under "a".
abbrev customs_of : Option (Item × List ℕ) → Option Value
customs_of none = none
customs_of (some (i, s)) = get_existing_attr 31 i.attributes

customs_read :
    customs_of (
      unserialize_attr untaken sword 2 fresh_item
        (36 ∷ 1 ∷ 0 ∷ 0 ∷ 0 ∷ 0 ∷ 0 ∷ 0 ∷ 0 ∷ 1 ∷ 0 ∷ 65 ∷ 4 ∷ 1 ∷ []))
    ≡ some (custom ((97 ∷ [], bool_value 1) ∷ []))
unfolding unserialize_attr zenonia.Attributes.Reading.read_attr zenonia.Otb.PropStream.read
    get_existing_attr find zenonia.Attributes.Reading.shape_of zenonia.Bytes.from_le
    zenonia.Attributes.Reading.read_custom_attributes
customs_read = refl
