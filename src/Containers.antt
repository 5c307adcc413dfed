-- ===== src/Containers.antt =====
-- The items of src/item.h and the containers of src/container.cpp, as a tree below the outermost container.
-- A container is named by the path of indices that leads to it, and pointers are compared as numbers.
pub mod Weights
pub mod Calls
pub mod Totals
pub mod Tops
pub mod FreeSlots
pub mod Removal
pub mod Limits
pub mod Counting
pub mod Queries
pub mod Visits
pub mod Iteration
pub mod Upkeep
use zenonia.Base.Int.{ℤ, pos, negsuc}
use zenonia.Base.{
  ℕ, zero, suc, ◌+◌, ◌-◌, ◌*◌, ◌%◌, ◌^◌, max, Bool, true, false, Option, none, some, List, [], ◌∷◌,
  leb, ltb, ◌==◌, if◌then◌else◌,
}

-- `ItemType`
pub record ItemType : Type 0 where
  pub weight : ℕ
  pub stackable : Bool
  pub pickupable : Bool
  pub moveable : Bool
  pub fluid : Bool
  pub charges : ℕ

-- `Item`, with its address, and `ITEM_ATTRIBUTE_WEIGHT` if it has one.
pub record Thing : Type 0 where
  pub address : ℕ
  pub id : ℕ
  pub count : ℕ
  pub weight_attribute : Option ℕ

-- `Container`, its items apart.
pub record Box : Type 0 where
  pub max_size : ℕ
  pub unlocked : Bool
  pub pagination : Bool
  pub is_inbox : Bool

-- A container has its total weight and its items.
mutual
  pub data Item : Type 0 where
    plain : Thing → Item
    container : Thing → Box → ℕ → Items → Item

  pub data Items : Type 0 where
    no_items : Items
    item : Item → Items → Items

abbrev pub thing_of : Item → Thing
thing_of (plain t) = t
thing_of (container t b total items) = t

unfoldable pub size : Items → ℕ
size no_items = 0
size (item i is) = suc (size is)

unfoldable pub push_back : Item → Items → Items
push_back i no_items = item i no_items
push_back i (item j js) = item j (push_back i js)

unfoldable pub get_item_by_index : ℕ → Items → Option Item
get_item_by_index n no_items = none
get_item_by_index zero (item i is) = some i
get_item_by_index (suc n) (item i is) = get_item_by_index n is

-- `itemlist.erase(itemlist.begin() + index)`
unfoldable pub erase : ℕ → Items → Items
erase n no_items = no_items
erase zero (item i is) = is
erase (suc n) (item i is) = item i (erase n is)

-- What a pointer to the item at an index does.
unfoldable pub change_at : ℕ → (Item → Item) → Items → Items
change_at n f no_items = no_items
change_at zero f (item i is) = item (f i) is
change_at (suc n) f (item i is) = item i (change_at n f is)

unfoldable pub get_thing_index : ℕ → Items → Option ℕ
get_thing_index a no_items = none
get_thing_index a (item i is) =
    let rest : Option ℕ = elim (get_thing_index a is) [ none ↦ none | some n ↦ some (suc n) ] in
    if (thing_of i).address == a then some 0 else rest

-- The item at a path.
unfoldable pub item_at : List ℕ → Item → Option Item
item_at [] i = some i
item_at (n ∷ p) (plain t) = none
item_at (n ∷ p) (container t b total items) = elim (get_item_by_index n items) [
  | none ↦ none
  | some i ↦ item_at p i
]

-- `Item::getBaseWeight` and `Item::getWeight`
abbrev pub get_base_weight : (ℕ → ItemType) → Thing → ℕ
get_base_weight types t = elim t.weight_attribute [ none ↦ (types t.id).weight | some w ↦ w ]

unfoldable pub thing_weight : (ℕ → ItemType) → Thing → ℕ
thing_weight types t =
    if (types t.id).stackable
    then (get_base_weight types t * max 1 t.count) % 2 ^ 32
    else get_base_weight types t % 2 ^ 32

-- `getWeight`, of a container too.
unfoldable pub get_weight : (ℕ → ItemType) → Item → ℕ
unfolding thing_weight
get_weight types (plain t) = thing_weight types t
get_weight types (container t b total items) = (thing_weight types t + total) % 2 ^ 32

-- `updateItemWeight` on the container at a path: the loop goes up to the outermost container.
unfoldable pub update_item_weight : ℕ → List ℕ → Item → Item
unfolding change_at
update_item_weight diff p (plain t) = plain t
update_item_weight diff [] (container t b total items) =
    container t b ((total + diff) % 2 ^ 32) items
update_item_weight diff (n ∷ p) (container t b total items) =
    container t b ((total + diff) % 2 ^ 32) (change_at n (update_item_weight diff p) items)

-- A write to the list of items of the container at a path.
unfoldable pub change_items : (Items → Items) → List ℕ → Item → Item
unfolding change_at
change_items f p (plain t) = plain t
change_items f [] (container t b total items) = container t b total (f items)
change_items f (n ∷ p) (container t b total items) =
    container t b total (change_at n (change_items f p) items)

-- A difference of 32 bits.
abbrev pub negated : ℕ → ℕ
negated w = (2 ^ 32 - w % 2 ^ 32) % 2 ^ 32

-- Is an index of 32 bits with a sign at or past the capacity?
abbrev pub is_past : ℤ → ℕ → Bool
is_past (pos n) capacity = leb capacity n
is_past (negsuc n) capacity = false

-- `setItemCount`
abbrev pub with_count : ℕ → Item → Item
with_count n (plain t) = plain (record t { count = n % 2 ^ 8 })
with_count n (container t b total items) = container (record t { count = n % 2 ^ 8 }) b total items

-- `setID` and `setSubType`, as far as weights go: fluids and charges are attributes.
abbrev pub retyped : (ℕ → ItemType) → ℕ → ℕ → Thing → Thing
retyped types id amount t =
    let kept : Thing = record t { id = id } in
    let counted : Thing = record t { id = id; count = amount % 2 ^ 8 } in
    if (types id).fluid
    then kept
    else if (types id).stackable
    then counted
    else if (types id).charges == 0
    then counted
    else kept

abbrev pub with_type : (ℕ → ItemType) → ℕ → ℕ → Item → Item
with_type types id amount (plain t) = plain (retyped types id amount t)
with_type types id amount (container t b total items) =
    container (retyped types id amount t) b total items

-- The two parts of a change: the list, and the weights.
abbrev pub changed : (Items → Items) → ℕ → List ℕ → Item → Item
changed f diff p root = update_item_weight diff p (change_items f p root)

-- The operations on a container look at it first.
abbrev pub on_container : (Box → Items → Item) → Option Item → Item → Item
on_container act (some (container t b total items)) root = act b items
on_container act (some (plain t)) root = root
on_container act none root = root

-- What is found at an index, if an index is found.
abbrev pub found_at : Option ℕ → Items → (ℕ → Item → Item) → Item → Item
found_at none items act root = root
found_at (some n) items act root = elim (get_item_by_index n items) [
  | none ↦ root
  | some old ↦ act n old
]

-- The count that is left, of 8 bits.
abbrev pub left_of : ℕ → ℕ → ℕ
left_of count amount =
    let diff = (count + (2 ^ 32 - amount % 2 ^ 32)) % 2 ^ 32 in
    if ltb diff (2 ^ 31) then diff % 2 ^ 8 else 0

module _ (types : ℕ → ItemType) where
  abbrev pub add_item_back : Item → List ℕ → Item → Item
  add_item_back i p root = changed (push_back i) (get_weight types i) p root

  abbrev pub internal_add_thing : Item → List ℕ → Item → Item
  internal_add_thing i p root = changed (item i) (get_weight types i) p root

  unfoldable pub add_thing : ℤ → Item → List ℕ → Item → Item
  unfolding item_at change_items update_item_weight get_weight
  add_thing index i p root =
      on_container
        (λ b items. if is_past index b.max_size then root else internal_add_thing i p root)
        (item_at p root) root

  abbrev pub update_at : ℕ → ℕ → ℕ → Item → List ℕ → Item → Item
  update_at n id amount old p root =
      changed (change_at n (with_type types id amount))
        ((negated (get_weight types old) + get_weight types (with_type types id amount old))
          % 2 ^ 32)
        p root

  unfoldable pub update_thing : ℕ → ℕ → ℕ → List ℕ → Item → Item
  unfolding item_at change_items update_item_weight get_weight get_thing_index get_item_by_index
      change_at
  update_thing address id amount p root =
      on_container
        (λ b items.
          found_at (get_thing_index address items) items (λ n old. update_at n id amount old p root)
            root)
        (item_at p root) root

  unfoldable pub replace_thing : ℕ → Item → List ℕ → Item → Item
  unfolding item_at change_items update_item_weight get_weight get_item_by_index change_at
  replace_thing n i p root =
      on_container
        (λ b items.
          found_at (some n) items
            (λ n old.
              changed (change_at n (λ j. i))
                ((negated (get_weight types old) + get_weight types i) % 2 ^ 32) p root)
            root)
        (item_at p root) root

  abbrev pub take_from : ℕ → ℕ → Item → List ℕ → Item → Item
  take_from n amount old p root =
      let left = left_of (thing_of old).count amount in
      if (types (thing_of old).id).stackable
      then (if amount == (thing_of old).count
          then changed (erase n) (negated (get_weight types old)) p root
          else changed (change_at n (with_count left))
              ((negated (get_weight types old) + get_weight types (with_count left old)) % 2 ^ 32) p
              root)
      else changed (erase n) (negated (get_weight types old)) p root

  unfoldable pub remove_thing : ℕ → ℕ → List ℕ → Item → Item
  unfolding item_at change_items update_item_weight get_weight get_thing_index get_item_by_index
      change_at erase
  remove_thing address amount p root =
      on_container
        (λ b items.
          found_at (get_thing_index address items) items (λ n old. take_from n amount old p root)
            root)
        (item_at p root) root
