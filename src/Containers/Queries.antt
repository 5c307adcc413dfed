-- ===== src/Containers/Queries.antt =====
-- The counts and the queries of src/container.cpp.
use zenonia.Base.Int.{ℤ, pos, negsuc}
use zenonia.Base.{
  ℕ, zero, suc, ◌+◌, ◌-◌, ◌/◌, ◌%◌, ◌^◌, Bool, true, false, not, ◌&&◌, ◌||◌, Option, none, some,
  List, [], ◌∷◌, ◌++◌, length, leb, ltb, ◌==◌, if◌then◌else◌,
}
use zenonia.Containers.{
  ItemType, Thing, Box, Item, plain, container, Items, no_items, item, thing_of, size, item_at,
  get_thing_index, get_item_by_index,
}
use zenonia.Containers.Iteration.{iterator, holding_all, each}

-- The values of `ReturnValue` that these functions give; all others by their number.
pub data ReturnValue : Type 0 where
  no_error not_possible cannot_pickup this_is_impossible container_not_enough_room not_moveable :
      ReturnValue
  other : ℕ → ReturnValue

-- The end of a loop over all things, or the value at its start.
abbrev pub ended : {A : Type 0} → Option A → A → A
ended none a = a
ended (some b) a = b

abbrev pub is_container : Item → Bool
is_container (plain t) = false
is_container (container t b total items) = true

abbrev pub count_one : Item → ℕ → ℕ
count_one i n = (n + 1) % 2 ^ 32

abbrev pub count_container : Item → ℕ → ℕ
count_container i n = if is_container i then (n + 1) % 2 ^ 32 else n

unfoldable pub get_item_holding_count : Items → ℕ
unfolding each holding_all
get_item_holding_count is = ended (each count_one (holding_all is) (iterator is) 0) 0

unfoldable pub get_container_holding_count : Items → ℕ
unfolding each holding_all
get_container_holding_count is = ended (each count_container (holding_all is) (iterator is) 0) 0

-- The loop may stop at the item; it then has found it.
unfoldable pub is_holding_item : ℕ → Items → Bool
unfolding each holding_all
is_holding_item address is =
    ended
      (each (λ i found. ((thing_of i).address == address) || found) (holding_all is) (iterator is)
        false)
      false

-- `getFreeSlots`, 16 bits: also of the containers inside.
abbrev pub free_of : Box → Items → ℕ
free_of b is = (b.max_size + (2 ^ 32 - size is % 2 ^ 32)) % 2 ^ 16

unfoldable mutual
  pub get_free_slots : Item → ℕ
  get_free_slots (plain t) = 0
  get_free_slots (container t b total items) = (free_of b items + free_slots_in items) % 2 ^ 16

  pub free_slots_in : Items → ℕ
  free_slots_in no_items = 0
  free_slots_in (item i is) = (get_free_slots i + free_slots_in is) % 2 ^ 16

-- `INDEX_WHEREEVER`
abbrev pub is_wherever : ℤ → Bool
is_wherever (negsuc zero) = true
is_wherever (negsuc (suc n)) = false
is_wherever (pos n) = false

-- `hasBitSet`
abbrev pub has_bit_set : ℕ → ℕ → Bool
has_bit_set bit flags = (flags / bit) % 2 == 1

-- `getItemCount` limits, and what stands above the outermost container: addresses from the inside out,
-- and the answer of `queryAdd` of the topmost of them below the map.
pub record Surroundings : Type 0 where
  pub max_item : ℕ
  pub max_container : ℕ
  pub outside : List ℕ
  pub top_answer : ReturnValue

-- The cylinders above a container, each with whether it is an inbox, from the inside out.
unfoldable pub containers_above : List ℕ → Item → List (ℕ × Bool)
unfolding get_item_by_index
containers_above [] root = []
containers_above (n ∷ p) (plain t) = []
containers_above (n ∷ p) (container t b total items) =
    (elim (get_item_by_index n items) [ none ↦ [] | some i ↦ containers_above p i ])
    ++ (t.address, b.is_inbox) ∷ []

abbrev pub not_inboxes : List ℕ → List (ℕ × Bool)
not_inboxes [] = []
not_inboxes (a ∷ rest) = (a, false) ∷ not_inboxes rest

-- The loop over `cylinder`, with the early returns.
unfoldable pub climb : Bool → ℕ → List (ℕ × Bool) → Option ReturnValue
climb no_limit address [] = none
climb no_limit address ((a, inbox) ∷ above) =
    let rest = climb no_limit address above in
    if a == address
    then some this_is_impossible
    else if not no_limit && inbox
    then some container_not_enough_room
    else rest

abbrev pub init : List ℕ → List ℕ
init [] = []
init (n ∷ []) = []
init (n ∷ m ∷ p) = n ∷ init (m ∷ p)

-- `getTopParentContainer`: the loop on `prevThing` and `thing`, while the parent of `thing` is a container.
unfoldable pub top_parent_loop : ℕ → List ℕ → List ℕ → List ℕ
top_parent_loop zero prev_thing thing = prev_thing
top_parent_loop (suc n) prev_thing thing = top_parent_loop n thing (init thing)

unfoldable pub get_top_parent_container : List ℕ → List ℕ
unfolding top_parent_loop
get_top_parent_container p = top_parent_loop (length (init p)) p (init p)

abbrev pub items_of : Option Item → Items
items_of none = no_items
items_of (some (plain t)) = no_items
items_of (some (container t b total items)) = items

-- The limits on what the topmost container holds.
abbrev pub is_over_limit : Surroundings → Item → Items → Bool
is_over_limit w (plain t) top = ltb w.max_item ((get_item_holding_count top + 1) % 2 ^ 32)
is_over_limit w (container t b total items) top =
    ltb w.max_container (
      (((get_container_holding_count items + 1) % 2 ^ 32) + get_container_holding_count top)
      % 2 ^ 32)
    || (ltb w.max_item
          ((((get_item_holding_count items + 1) % 2 ^ 32) + get_item_holding_count top) % 2 ^ 32)
        || ltb w.max_item ((get_item_holding_count top + 1) % 2 ^ 32))

-- `getTopParent` is the container itself if there is one cylinder above it at most.
abbrev pub answer_above : Surroundings → List ℕ → ReturnValue
answer_above w p = if leb (length p + length w.outside) 1 then no_error else w.top_answer

module _ (types : ℕ → ItemType) (w : Surroundings) where
  -- `queryAdd` of an item, from the loop on.
  abbrev pub query_room : ℤ → Item → ℕ → List ℕ → Item → Box → Items → ReturnValue
  query_room add_index i flags p root b items =
      let no_limit = has_bit_set 1 flags in
      elim (climb no_limit (thing_of i).address
        (containers_above p root ++ not_inboxes w.outside)) [
          | some r ↦ r
          | none ↦
              if not no_limit
                && is_wherever add_index
                && leb b.max_size (size items)
                && not b.pagination
              then container_not_enough_room
              else if is_over_limit w i (items_of (item_at (get_top_parent_container p) root))
              then not_possible
              else answer_above w p
        ]

  abbrev pub query_item : ℤ → Option Item → ℕ → List ℕ → Item → Thing → Box → Items → ReturnValue
  query_item add_index none flags p root t b items = not_possible
  query_item add_index (some i) flags p root t b items =
      if (types (thing_of i).id).pickupable
      then (if (thing_of i).address == t.address
          then this_is_impossible
          else query_room add_index i flags p root b items)
      else cannot_pickup

  -- `queryAdd` of the container at a path; a thing that is no item is `none`.
  unfoldable pub query_add : ℤ → Option Item → ℕ → List ℕ → Item → ReturnValue
  unfolding item_at climb containers_above get_top_parent_container size get_item_holding_count
      get_container_holding_count
  query_add add_index thing flags p root = elim (item_at p root) [
    | none ↦ not_possible
    | some here ↦ elim here [
      | plain t ↦ not_possible
      | container t b total items ↦
          if has_bit_set 8 flags
          then no_error
          else if b.unlocked
          then query_item add_index thing flags p root t b items
          else not_possible
    ]
  ]

-- `queryRemove` of a thing in a list of items, which has an address.
unfoldable pub query_remove : (ℕ → ItemType) → ℕ → ℕ → ℕ → Items → ReturnValue
unfolding get_thing_index get_item_by_index
query_remove types address amount flags items = elim (get_thing_index address items) [
  | none ↦ not_possible
  | some n ↦ elim (get_item_by_index n items) [
    | none ↦ not_possible
    | some i ↦
        if (amount == 0) || ((types (thing_of i).id).stackable && ltb (thing_of i).count amount)
        then not_possible
        else if not (types (thing_of i).id).moveable && not (has_bit_set 64 flags)
        then not_moveable
        else no_error
  ]
]
