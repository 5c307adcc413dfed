-- ===== src/Containers/Counting.antt =====
-- What the loops of src/container.cpp count, and how a change of a container changes it.
use zenonia.Base.{
  ℕ, zero, suc, ◌+◌, ◌%◌, ◌^◌, ◌<◌, ◌≡◌, refl, ap, Bool, false, ◌||◌, some, List, [], ◌∷◌, arith,
  ◌==◌, if◌then◌else◌, Option-cases, inl, inr,
}
use zenonia.Containers.{
  Thing, Box, Item, plain, container, Items, no_items, item, thing_of, get_item_by_index, erase,
  change_at, item_at, update_item_weight, change_items, changed,
}
use zenonia.Containers.Iteration.{holding_all, within, within_all}
use zenonia.Containers.Weights.{change_at-change_at}
use zenonia.Containers.Visits.{each-iterator}
use zenonia.Containers.Queries.{
  is_container, count_one, count_container, get_item_holding_count, get_container_holding_count,
  is_holding_item,
}

module _ (g : Item → ℕ) where
  -- The sum of a measure over all things in an item.
  unfoldable mutual
    pub tally : Item → ℕ
    tally (plain t) = 0
    tally (container t b total items) = tally_all items

    pub tally_all : Items → ℕ
    tally_all no_items = 0
    tally_all (item i is) = g i + tally i + tally_all is

-- All things, and all containers, in a list of items.
abbrev pub one : Item → ℕ
one i = 1

abbrev pub one_container : Item → ℕ
one_container i = if is_container i then 1 else 0

-- Is there a thing with this address?
unfoldable mutual
  pub holds : ℕ → Item → Bool
  holds address (plain t) = false
  holds address (container t b total items) = holds_in address items

  pub holds_in : ℕ → Items → Bool
  holds_in address no_items = false
  holds_in address (item i is) =
      ((thing_of i).address == address) || (holds address i || holds_in address is)

module _ (g : Item → ℕ) (f : Item → ℕ → ℕ)
    (counts : (i : Item) (n : ℕ) → n < 2 ^ 32 → f i n ≡ (n + g i) % 2 ^ 32) where
  mutual
    unfolding within tally

    within-tally : (i : Item) (n : ℕ) → n < 2 ^ 32 → within f i n ≡ (n + tally g i) % 2 ^ 32
    within-tally (plain t) n lt = omega arith
    within-tally (container t b total items) n lt = within_all-tally items n lt

    within_all-tally :
        (is : Items) (n : ℕ) → n < 2 ^ 32 → within_all f is n ≡ (n + tally_all g is) % 2 ^ 32
    within_all-tally no_items n lt = omega arith
    within_all-tally (item i is) n lt = omega (
      arith,
      counts i n lt,
      within-tally i (f i n) (omega (arith, counts i n lt)),
      within_all-tally is (within f i (f i n))
          (omega (arith, within-tally i (f i n) (omega (arith, counts i n lt)))),
    )

find : ℕ → Item → Bool → Bool
find address i found = ((thing_of i).address == address) || found

mutual
  unfolding within holds find

  within-find :
      (address : ℕ) (i : Item) (b : Bool) → within (find address) i b ≡ (b || holds address i)
  within-find address (plain t) b = ground arith
  within-find address (container t box total items) b = within_all-find address items b

  within_all-find :
      (address : ℕ) (is : Items) (b : Bool)
      → within_all (find address) is b ≡ (b || holds_in address is)
  within_all-find address no_items b = ground arith
  within_all-find address (item i is) b = ground (
    arith,
    within-find address i (find address i b),
    within_all-find address is (within (find address) i (find address i b)),
  )

count_one-commutes :
    (i j : Item) (n : ℕ) → count_one i (count_one j n) ≡ count_one j (count_one i n)
count_one-commutes i j n = refl

count_container-commutes :
    (i j : Item) (n : ℕ)
    → count_container i (count_container j n) ≡ count_container j (count_container i n)
count_container-commutes i j n = ground arith

find-commutes :
    (address : ℕ) (i j : Item) (b : Bool)
    → find address i (find address j b) ≡ find address j (find address i b)
unfolding find
find-commutes address i j b = ground arith

pub get_item_holding_count-tally :
    (is : Items) → get_item_holding_count is ≡ tally_all one is % 2 ^ 32
unfolding get_item_holding_count
get_item_holding_count-tally is =
    rw (each-iterator count_one count_one-commutes (holding_all is) is 0 (omega arith))
      (omega (arith, within_all-tally one count_one (λ i n lt. refl) is 0 (omega arith)))

pub get_container_holding_count-tally :
    (is : Items) → get_container_holding_count is ≡ tally_all one_container is % 2 ^ 32
unfolding get_container_holding_count
get_container_holding_count-tally is =
    rw (each-iterator count_container count_container-commutes (holding_all is) is 0 (omega arith))
      (omega (
        arith,
        within_all-tally one_container count_container (λ i n lt. ground (arith, lt)) is 0
            (omega arith),
      ))

is_holding_item-holds_in :
    (address : ℕ) (is : Items) → is_holding_item address is ≡ holds_in address is
unfolding is_holding_item find
is_holding_item-holds_in address is =
    rw
      (each-iterator (find address) (find-commutes address) (holding_all is) is false (omega arith))
      (within_all-find address is false)

-- The loops over a container come to their end, and give what the nested containers hold: the number
-- of things and of containers, in 32 bits, and whether a thing is in there.
pub holding-tally :
    (is : Items) (address : ℕ)
    → (get_item_holding_count is ≡ tally_all one is % 2 ^ 32)
      × (get_container_holding_count is ≡ tally_all one_container is % 2 ^ 32)
      × (is_holding_item address is ≡ holds_in address is)
holding-tally is address = (
  get_item_holding_count-tally is,
  get_container_holding_count-tally is,
  is_holding_item-holds_in address is,
)

module _ (g : Item → ℕ) where
  pub tally_all-change_at :
      (n : ℕ) (f : Item → Item) (is : Items) (i : Item)
      → get_item_by_index n is ≡ some i
      → tally_all g (change_at n f is) + (g i + tally g i)
        ≡ tally_all g is + (g (f i) + tally g (f i))
  unfolding tally get_item_by_index change_at
  tally_all-change_at n f no_items i e = absurd (cc)
  tally_all-change_at zero f (item j js) i e =
      let same : j ≡ i = cc e in
      omega (
        arith,
        ap (tally g) same,
        ap g same,
        ap (λ (x : Item). tally g (f x)) same,
        ap (λ (x : Item). g (f x)) same,
      )
  tally_all-change_at (suc n) f (item j js) i e = omega (arith, tally_all-change_at n f js i e)

  pub tally_all-erase :
      (n : ℕ) (is : Items) (i : Item)
      → get_item_by_index n is ≡ some i
      → tally_all g (erase n is) + (g i + tally g i) ≡ tally_all g is
  unfolding tally get_item_by_index erase
  tally_all-erase n no_items i e = absurd (cc)
  tally_all-erase zero (item j js) i e =
      let same : j ≡ i = cc e in omega (arith, ap (tally g) same, ap g same)
  tally_all-erase (suc n) (item j js) i e = omega (arith, tally_all-erase n js i e)

  module _
      (alike : (t : Thing) (b : Box) (total total' : ℕ) (is is' : Items)
        → g (container t b total is) ≡ g (container t b total' is')) where
    alike_below : (f : Items → Items) (d : ℕ) (p : List ℕ) (i : Item) → g (changed f d p i) ≡ g i
    unfolding change_items update_item_weight
    alike_below f d [] (plain t) = refl
    alike_below f d (n ∷ p) (plain t) = refl
    alike_below f d [] (container t b total is) = alike t b _ _ _ _
    alike_below f d (n ∷ p) (container t b total is) = alike t b _ _ _ _

    -- A change adds to all containers above what it adds to the container itself.
    pub tally-changed :
        (f : Items → Items) (d : ℕ) (p : List ℕ) (root : Item) (t : Thing) (b : Box) (total : ℕ)
        (items : Items)
        → item_at p root ≡ some (container t b total items)
        → tally g (changed f d p root) + tally_all g items ≡ tally g root + tally_all g (f items)
    unfolding item_at change_items update_item_weight tally
    tally-changed f d [] (plain s) t b total items e = absurd (cc)
    tally-changed f d (n ∷ p) (plain s) t b total items e = absurd (cc)
    tally-changed f d [] (container s c sum is) t b total items e =
        let same : is ≡ items = cc e in
        omega (arith, ap (tally_all g) same, ap (λ (x : Items). tally_all g (f x)) same)
    tally-changed f d (n ∷ p) (container s c sum is) t b total items e =
        elim (Option-cases (get_item_by_index n is)) [
          | inl missing ↦ absurd (cc (rw (missing, item_at) at e))
          | inr (i, found) ↦
              let below = tally-changed f d p i t b total items (rw (found, item_at) at e) in
              let moved = tally_all-change_at n (changed f d p) is i found in
              let alike_i = alike_below f d p i in
              rw (change_at-change_at n (change_items f p) (update_item_weight d p) is)
                (omega (arith, moved, below, alike_i))
        ]
