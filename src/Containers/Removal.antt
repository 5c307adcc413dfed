-- ===== src/Containers/Removal.antt =====
-- `queryRemove` and `removeThing` of src/container.cpp: what is granted is what is taken.
use zenonia.Base.{
  ℕ, ◌+◌, ◌-◌, ◌%◌, ◌^◌, ◌<◌, ◌≤◌, ◌≡◌, refl, true, some, List, arith, ◌==◌, Bool-cases, inl, inr,
}
use zenonia.Containers.{
  ItemType, Thing, Box, Item, plain, container, Items, thing_of, get_item_by_index, get_thing_index,
  erase, change_at, item_at, negated, get_weight, with_count, left_of, take_from, found_at,
  remove_thing,
}
use zenonia.Containers.Counting.{tally, tally-changed, tally_all-change_at, tally_all-erase}
use zenonia.Containers.Queries.{no_error, query_remove}

-- The number of pieces of a thing.
abbrev pub pieces : Item → ℕ
pieces i = (thing_of i).count

all_of : (amount count : ℕ) → (amount == count) ≡ true → amount ≡ count
all_of amount count e = ground (arith, e)

module _ (types : ℕ → ItemType) where
  query_remove-granted :
      (address amount flags n : ℕ) (items : Items) (s : Thing)
      → get_thing_index address items ≡ some n
      → get_item_by_index n items ≡ some (plain s)
      → (types s.id).stackable ≡ true
      → query_remove types address amount flags items ≡ no_error
      → amount ≤ s.count
  unfolding query_remove
  query_remove-granted address amount flags n items s index found stacks e =
      ground (arith, index, found, stacks, e)

  remove_thing-take_from :
      (address amount n : ℕ) (p : List ℕ) (root : Item) (t : Thing) (b : Box) (total : ℕ)
      (items : Items) (old : Item)
      → item_at p root ≡ some (container t b total items)
      → get_thing_index address items ≡ some n
      → get_item_by_index n items ≡ some old
      → remove_thing types address amount p root ≡ take_from types n amount old p root
  unfolding remove_thing
  remove_thing-take_from address amount n p root t b total items old here index found =
      rw (here, remove_thing) (rw index (rw (found, found_at) refl))

  take_from-pieces :
      (amount n : ℕ) (p : List ℕ) (root : Item) (t : Thing) (b : Box) (total : ℕ) (items : Items)
      (s : Thing)
      → item_at p root ≡ some (container t b total items)
      → get_item_by_index n items ≡ some (plain s)
      → (types s.id).stackable ≡ true
      → s.count < 256
      → amount ≤ s.count
      → tally pieces (take_from types n amount (plain s) p root) + amount ≡ tally pieces root
  unfolding tally
  take_from-pieces amount n p root t b total items s here found stacks fits less =
      let left = left_of s.count amount in
      let rest : left ≡ s.count - amount = ground (arith, fits, less) in
      let none_inside : tally pieces (plain s) ≡ 0 = refl in
      elim (Bool-cases (amount == s.count)) [
        | inl all ↦
            rw (stacks, all)
              (omega (
                arith,
                all_of amount s.count all,
                none_inside,
                tally_all-erase pieces n items (plain s) found,
                tally-changed pieces (λ t b k m is js. refl) (erase n)
                    (negated (get_weight types (plain s))) p root t b total items here,
              ))
        | inr part ↦
            rw (stacks, part)
              (omega (
                arith,
                rest,
                fits,
                less,
                none_inside,
                tally_all-change_at pieces n (with_count left) items (plain s) found,
                tally-changed pieces (λ t b k m is js. refl) (change_at n (with_count left))
                    ((negated (get_weight types (plain s))
                        + get_weight types (with_count left (plain s)))
                      % 2 ^ 32)
                    p root t b total items here,
              ))
      ]

  -- Where `queryRemove` grants an amount of a thing in a container, which stacks, holds nothing and has a
  -- count of 8 bits, `removeThing` takes just so many pieces from all that the outermost container holds.
  pub remove_thing-pieces :
      (address amount flags n : ℕ) (p : List ℕ) (root : Item) (t : Thing) (b : Box) (total : ℕ)
      (items : Items) (s : Thing)
      → item_at p root ≡ some (container t b total items)
      → get_thing_index address items ≡ some n
      → get_item_by_index n items ≡ some (plain s)
      → (types s.id).stackable ≡ true
      → s.count < 256
      → query_remove types address amount flags items ≡ no_error
      → tally pieces (remove_thing types address amount p root) + amount ≡ tally pieces root
  remove_thing-pieces address amount flags n p root t b total items s here index found stacks fits
        e =
      rw (remove_thing-take_from address amount n p root t b total items (plain s) here index found)
        (take_from-pieces amount n p root t b total items s here found stacks fits
          (query_remove-granted address amount flags n items s index found stacks e))
