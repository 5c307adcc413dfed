-- ===== src/Tests/ContainersTests.antt =====
-- src/container.cpp on a backpack with a bag in it.
use zenonia.Base.Int.{pos}
use zenonia.Base.{
  arith, ℕ, suc, ◌≤◌, ◌<◌, ◌++◌, Bool, ◌+◌, ◌%◌, ◌^◌, ◌≡◌, refl, true, false, none, some, List, [],
  ◌∷◌, ◌==◌, if◌then◌else◌, All,
}
use zenonia.Containers.{
  ItemType, Thing, Box, Item, plain, container, no_items, item, size, get_item_by_index, item_at,
  thing_of, get_weight, get_thing_index, add_thing, remove_thing,
}
use zenonia.Containers.Weights.{content_weight, IsWeighed}
use zenonia.Containers.Calls.{Call, call_add_thing, call_remove_thing, run}
use zenonia.Containers.Totals.{own_weights, get_weight-run}
use zenonia.Containers.Counting.{tally, tally_all, one, one_container, holds_in, holding-tally}
use zenonia.Containers.Queries.{
  Surroundings, no_error, containers_above, is_holding_item, get_item_holding_count,
  get_container_holding_count, query_add, query_remove, get_free_slots, items_of, not_inboxes,
  is_container,
}
use zenonia.Containers.Limits.{query_add-limits}
use zenonia.Containers.Removal.{pieces, remove_thing-pieces}
use zenonia.Containers.FreeSlots.{room, IsRoomy, get_free_slots-room}

-- Type 1 is a bag, 2 a coin.
abbrev types : ℕ → ItemType
types id = record {
  weight = if id == 1 then 800 else 10;
  stackable = id == 2;
  pickupable = true;
  moveable = true;
  fluid = false;
  charges = 0;
}

abbrev bag_thing : ℕ → Thing
bag_thing a = record { address = a; id = 1; count = 1; weight_attribute = none }

abbrev coins : ℕ → ℕ → Item
coins a n = plain (record { address = a; id = 2; count = n; weight_attribute = none })

abbrev box : ℕ → Box
box n = record { max_size = n; unlocked = true; pagination = false; is_inbox = false }

-- A backpack (1) with coins (3) and a bag (2) with coins (4).
abbrev backpack : Item
backpack = container (bag_thing 1) (box 20) 1370 (
    item (coins 3 50)
      (item (container (bag_thing 2) (box 8) 70 (item (coins 4 7) no_items)) no_items))

abbrev world : Surroundings
world = record { max_item = 4; max_container = 2; outside = 90 ∷ []; top_answer = no_error }

all_things : get_item_holding_count (items_of (some backpack)) ≡ 3
unfolding get_item_holding_count
all_things = refl

one_bag : get_container_holding_count (items_of (some backpack)) ≡ 1
unfolding get_container_holding_count
one_bag = refl

-- The limit counts what is in the bag alone: the backpack holds five things afterwards.
past_the_limit :
    query_add types world (pos 0) (some (coins 5 1)) 0 (1 ∷ []) (
      container (bag_thing 1) (box 20) 0 (
        item (coins 3 1) (
          item
            (container (bag_thing 2) (box 8) 0 no_items)
            (item (coins 6 1) (item (coins 7 1) no_items)))))
    ≡ no_error
unfolding query_add
past_the_limit = refl

-- A pouch without a limit holds more items than its capacity, and its free slots wrap around.
pouch :
    get_free_slots (
      container
        (bag_thing 1)
        (record { max_size = 1; unlocked = true; pagination = true; is_inbox = false })
        0
        (item (coins 3 1) (item (coins 4 1) no_items)))
    ≡ 65535
unfolding get_free_slots size
pouch = refl

backpack-IsWeighed : IsWeighed types backpack
unfolding IsWeighed content_weight get_weight
backpack-IsWeighed = (refl, (tt, ((refl, (tt, tt)), tt)))

abbrev calls : List (List ℕ × Call)
calls =
    (1 ∷ [], call_add_thing (pos 0) (coins 5 30))
    ∷ ([], call_remove_thing 3 20)
    ∷ (1 ∷ [], call_remove_thing 4 7)
    ∷ []

weight_after : get_weight types (run types calls backpack) ≡ 2200
unfolding add_thing remove_thing
weight_after = refl

get_weight-run_example :
    get_weight types (run types calls backpack)
    ≡ own_weights types (run types calls backpack) % 2 ^ 32
unfolding IsWeighed
get_weight-run_example = get_weight-run types calls backpack (tt, (tt, (tt, tt))) backpack-IsWeighed

holding-tally_example :
    (get_item_holding_count (items_of (some backpack))
      ≡ tally_all one (items_of (some backpack)) % 2 ^ 32)
    × (get_container_holding_count (items_of (some backpack))
        ≡ tally_all one_container (items_of (some backpack)) % 2 ^ 32)
    × (is_holding_item 4 (items_of (some backpack)) ≡ holds_in 4 (items_of (some backpack)))
holding-tally_example = holding-tally (items_of (some backpack)) 4

agreed_coins : query_add types world (pos 0) (some (coins 5 1)) 0 [] backpack ≡ no_error
unfolding query_add
agreed_coins = refl

few_things : suc (tally one (coins 5 1) + tally_all one (items_of (item_at [] backpack))) < 2 ^ 32
unfolding tally item_at
few_things = ground arith

query_add-limits_example :
    let top = items_of (item_at [] (add_thing types (pos 0) (coins 5 1) [] backpack)) in
    (tally_all one top ≤ 4)
    × (is_container (coins 5 1) ≡ true → tally_all one_container top ≤ 2)
    × All
        (λ (c : ℕ × Bool). (c.0 == 5) ≡ false)
        (containers_above [] backpack ++ not_inboxes (90 ∷ []))
    × ((5 == 1) ≡ false)
unfolding item_at
query_add-limits_example =
    query_add-limits types world (pos 0) (coins 5 1) 0 [] backpack (bag_thing 1) (box 20) 1370
      (items_of (some backpack)) refl refl refl few_things agreed_coins

granted : query_remove types 3 20 0 (items_of (some backpack)) ≡ no_error
unfolding query_remove
granted = refl

remove_thing-pieces_example :
    tally pieces (remove_thing types 3 20 [] backpack) + 20 ≡ tally pieces backpack
unfolding item_at get_thing_index get_item_by_index
remove_thing-pieces_example =
    remove_thing-pieces types 3 20 0 0 [] backpack (bag_thing 1) (box 20) 1370
      (items_of (some backpack)) (thing_of (coins 3 50)) refl refl refl refl (ground arith) granted

backpack-IsRoomy : IsRoomy backpack
unfolding IsRoomy size
backpack-IsRoomy = (ground arith, ground arith, (tt, ((ground arith, ground arith, (tt, tt)), tt)))

get_free_slots-room_example : get_free_slots backpack ≡ room backpack % 2 ^ 16
get_free_slots-room_example = get_free_slots-room backpack backpack-IsRoomy
