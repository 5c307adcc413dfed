-- ===== src/Containers/Limits.antt =====
-- What a container holds after `queryAdd` of src/container.cpp has agreed.
use zenonia.Base.Int.{ℤ}
use zenonia.Base.{
  ℕ, suc, ◌+◌, ◌^◌, ◌≤◌, ◌<◌, ◌≡◌, ◌≢◌, refl, sym, ap, ◌∙◌, Bool, true, false, not, ◌&&◌, Option,
  none, some, List, [], ◌∷◌, ◌++◌, arith, ◌==◌, leb, take, if◌then◌else◌, All,
}
use zenonia.Containers.{
  ItemType, Thing, Box, Item, plain, container, Items, item, thing_of, size, item_at, get_weight,
  internal_add_thing, add_thing, is_past,
}
use zenonia.Containers.Counting.{
  tally, tally_all, one, one_container, get_item_holding_count-tally,
  get_container_holding_count-tally,
}
use zenonia.Containers.Queries.{
  ReturnValue, no_error, not_possible, cannot_pickup, this_is_impossible, container_not_enough_room,
  is_container, has_bit_set, is_wherever, Surroundings, climb, containers_above, not_inboxes,
  get_top_parent_container, items_of, is_over_limit, query_item, query_add,
}
use zenonia.Containers.Tops.{get_top_parent_container-take, climb-All, tally_all-le, tally-top}

-- Past an early return.
passed :
    (c : Bool) (r rest : ReturnValue)
    → r ≢ no_error
    → (if c then r else rest) ≡ no_error
    → (c ≡ false) × (rest ≡ no_error)
passed true r rest ne e = absurd (ne e)
passed false r rest ne e = (refl, e)

agreed :
    (c : Bool) (rest r : ReturnValue)
    → r ≢ no_error
    → (if c then rest else r) ≡ no_error
    → (c ≡ true) × (rest ≡ no_error)
agreed true rest r ne e = (refl, e)
agreed false rest r ne e = absurd (ne e)

climb-refuses :
    (no_limit : Bool) (address : ℕ) (above : List (ℕ × Bool))
    → climb no_limit address above ≢ some no_error
unfolding climb
climb-refuses no_limit address [] = λ e. cc
climb-refuses no_limit address ((a, inbox) ∷ above) =
    λ e. ground (arith, e, climb-refuses no_limit address above)

returned :
    (o : Option ReturnValue) (rest : ReturnValue)
    → o ≢ some no_error
    → ◌≡◌ {A = ReturnValue} (elim o [ some r ↦ r | none ↦ rest ]) no_error
    → (o ≡ none) × (rest ≡ no_error)
returned none rest ne e = (refl, e)
returned (some r) rest ne e = absurd (ne (ap some e))

module _ (types : ℕ → ItemType) (w : Surroundings) where
  -- What holds where `queryAdd` comes to its end.
  query_item-no_error :
      (add_index : ℤ) (i : Item) (flags : ℕ) (p : List ℕ) (root : Item) (t : Thing) (b : Box)
      (items : Items)
      → query_item types w add_index (some i) flags p root t b items ≡ no_error
      → (((thing_of i).address == t.address) ≡ false)
        × (climb
              (has_bit_set 1 flags)
              (thing_of i).address
              (containers_above p root ++ not_inboxes w.outside)
            ≡ none)
        × (is_over_limit w i (items_of (item_at (get_top_parent_container p) root)) ≡ false)
  query_item-no_error add_index i flags p root t b items e =
      let light = agreed (types (thing_of i).id).pickupable _ cannot_pickup (λ d. cc) e in
      let apart =
        passed ((thing_of i).address == t.address) this_is_impossible _ (λ d. cc) light.1 in
      let walked =
        returned
          (climb (has_bit_set 1 flags) (thing_of i).address
            (containers_above p root ++ not_inboxes w.outside))
          _
          (climb-refuses (has_bit_set 1 flags) (thing_of i).address
            (containers_above p root ++ not_inboxes w.outside))
          apart.1 in
      let roomy =
        passed
          (not (has_bit_set 1 flags)
            && is_wherever add_index
            && leb b.max_size (size items)
            && not b.pagination)
          container_not_enough_room _ (λ d. cc) walked.1 in
      let small =
        passed (is_over_limit w i (items_of (item_at (get_top_parent_container p) root)))
          not_possible _ (λ d. cc) roomy.1 in
      (apart.0, walked.0, small.0)

  query_add-item :
      (add_index : ℤ) (i : Item) (flags : ℕ) (p : List ℕ) (root : Item) (t : Thing) (b : Box)
      (total : ℕ) (items : Items)
      → item_at p root ≡ some (container t b total items)
      → has_bit_set 8 flags ≡ false
      → query_add types w add_index (some i) flags p root ≡ no_error
      → query_item types w add_index (some i) flags p root t b items ≡ no_error
  unfolding query_add
  query_add-item add_index i flags p root t b total items here top e =
      (agreed b.unlocked (query_item types w add_index (some i) flags p root t b items) not_possible
        (λ d. cc) (rw (here, top, query_add) at e)).1

  limits-kept :
      (i : Item) (top : Items)
      → suc (tally one i + tally_all one top) < 2 ^ 32
      → is_over_limit w i top ≡ false
      → (tally_all one top + suc (tally one i) ≤ w.max_item)
        × (is_container i ≡ true
            → tally_all one_container top + suc (tally one_container i) ≤ w.max_container)
  unfolding tally
  limits-kept (plain t) top few e =
      (ground (arith, e, few, get_item_holding_count-tally top), λ k. cc)
  limits-kept (container t b total items) top few e =
      let all_items = get_item_holding_count-tally items in
      let all_top = get_item_holding_count-tally top in
      let boxes = get_container_holding_count-tally items in
      let boxes_top = get_container_holding_count-tally top in
      let fewer = tally_all-le items in
      let fewer_top = tally_all-le top in
      (
        ground (arith, e, few, all_items, all_top),
        λ k. ground (arith, e, few, boxes, boxes_top, fewer, fewer_top),
      )

  add_thing-internal :
      (add_index : ℤ) (i : Item) (p : List ℕ) (root : Item) (t : Thing) (b : Box) (total : ℕ)
      (items : Items)
      → item_at p root ≡ some (container t b total items)
      → is_past add_index b.max_size ≡ false
      → add_thing types add_index i p root ≡ internal_add_thing types i p root
  unfolding add_thing
  add_thing-internal add_index i p root t b total items here inside =
      rw (here, add_thing) (rw inside refl)

  added :
      (g : Item → ℕ) (i : Item) (items : Items)
      → tally_all g (item i items) ≡ g i + tally g i + tally_all g items
  unfolding tally
  added g i items = refl

  -- Where `queryAdd` of a container agrees to an item, for a query that is not from a container inside,
  -- and the item is put in at an index that is not past the capacity: the item is neither the
  -- container nor above it, and the container below the outermost one on the way, or the outermost one
  -- itself, holds no more things than the limit, and if the item is a container no more containers, as
  -- long as the number of things is below 2 ^ 32.
  pub query_add-limits :
      (add_index : ℤ) (i : Item) (flags : ℕ) (p : List ℕ) (root : Item) (t : Thing) (b : Box)
      (total : ℕ) (items : Items)
      → item_at p root ≡ some (container t b total items)
      → has_bit_set 8 flags ≡ false
      → is_past add_index b.max_size ≡ false
      → suc (tally one i + tally_all one (items_of (item_at (take 1 p) root))) < 2 ^ 32
      → query_add types w add_index (some i) flags p root ≡ no_error
      → let top = items_of (item_at (take 1 p) (add_thing types add_index i p root)) in
        (tally_all one top ≤ w.max_item)
        × (is_container i ≡ true → tally_all one_container top ≤ w.max_container)
        × All
            (λ (c : ℕ × Bool). (c.0 == (thing_of i).address) ≡ false)
            (containers_above p root ++ not_inboxes w.outside)
        × (((thing_of i).address == t.address) ≡ false)
  query_add-limits add_index i flags p root t b total items here top inside few e =
      let asked =
        query_item-no_error add_index i flags p root t b items
          (query_add-item add_index i flags p root t b total items here top e) in
      let kept = limits-kept i (items_of (item_at (take 1 p) root)) few (
        ap (λ q. is_over_limit w i (items_of (item_at q root)))
          (sym (get_top_parent_container-take p))
        ∙ asked.2) in
      rw (add_thing-internal add_index i p root t b total items here inside) (
        omega (
          arith,
          kept.0,
          tally-top one (λ t b m n is js. refl) (item i) (get_weight types i) p root t b total items
              here,
          added one i items,
        ),
        (λ k. omega (
          arith,
          kept.1 k,
          ap {B = ℕ} (λ (c : Bool). if c then 1 else 0) k,
          added one_container i items,
          tally-top one_container (λ t b m n is js. refl) (item i) (get_weight types i) p root t b
              total items here,
        )),
        climb-All (has_bit_set 1 flags) (thing_of i).address
            (containers_above p root ++ not_inboxes w.outside) asked.1,
        asked.0,
      )
