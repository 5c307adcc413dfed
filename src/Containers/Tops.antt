-- ===== src/Containers/Tops.antt =====
-- The topmost container of src/container.cpp, as `getTopParentContainer` finds it.
use zenonia.Base.{
  ℕ, zero, suc, ◌+◌, ◌≤◌, ◌≡◌, refl, ap, ◌∙◌, Bool, false, Option, none, some, List, [], ◌∷◌, arith,
  ◌==◌, length, take, Bool-cases, Option-cases, inl, inr, All,
}
use zenonia.Containers.{
  Thing, Box, Item, plain, container, Items, no_items, item, get_item_by_index, change_at, item_at,
  update_item_weight, change_items, changed,
}
use zenonia.Containers.Weights.{change_at-change_at}
use zenonia.Containers.Counting.{tally, tally_all, one, one_container, tally-changed}
use zenonia.Containers.Queries.{climb, init, top_parent_loop, get_top_parent_container, items_of}

take_init : (n : ℕ) (p : List ℕ) → length p ≡ suc n → length (init p) ≡ n
take_init n [] e = absurd (omega arith)
take_init n (x ∷ []) e = omega arith
take_init zero (x ∷ y ∷ p) e = absurd (omega arith)
take_init (suc n) (x ∷ y ∷ p) e = ap suc (take_init n (y ∷ p) (omega arith))

top_parent_loop-take :
    (n : ℕ) (prev_thing thing : List ℕ)
    → length thing ≡ suc n
    → top_parent_loop (suc n) prev_thing thing ≡ take 1 thing
unfolding top_parent_loop
top_parent_loop-take n prev_thing [] e = absurd (omega arith)
top_parent_loop-take zero prev_thing (x ∷ []) e = refl
top_parent_loop-take zero prev_thing (x ∷ y ∷ p) e = absurd (omega arith)
top_parent_loop-take (suc n) prev_thing (x ∷ []) e = absurd (omega arith)
top_parent_loop-take (suc n) prev_thing (x ∷ y ∷ p) e =
    top_parent_loop-take n (x ∷ y ∷ p) (x ∷ init (y ∷ p))
      (ap suc (take_init n (y ∷ p) (omega arith)))

-- The loop stops below the outermost container.
pub get_top_parent_container-take : (p : List ℕ) → get_top_parent_container p ≡ take 1 p
unfolding get_top_parent_container top_parent_loop
get_top_parent_container-take [] = refl
get_top_parent_container-take (n ∷ []) = refl
get_top_parent_container-take (n ∷ m ∷ p) =
    top_parent_loop-take (length (init (m ∷ p))) (n ∷ m ∷ p) (n ∷ init (m ∷ p)) refl

-- An address that the loop over the cylinders does not meet.
pub climb-All :
    (no_limit : Bool) (address : ℕ) (above : List (ℕ × Bool))
    → climb no_limit address above ≡ none
    → All (λ (c : ℕ × Bool). (c.0 == address) ≡ false) above
unfolding climb
climb-All no_limit address [] e = tt
climb-All no_limit address ((a, inbox) ∷ above) e = elim (Bool-cases (a == address)) [
  | inl same ↦ absurd (ground (arith, e, same))
  | inr apart ↦ (apart, climb-All no_limit address above (ground (arith, e, apart)))
]

tally_all-items_of : (g : Item → ℕ) (i : Item) → tally_all g (items_of (some i)) ≡ tally g i
unfolding tally
tally_all-items_of g (plain t) = refl
tally_all-items_of g (container t b total items) = refl

mutual
  unfolding tally

  tally-le : (i : Item) → tally one_container i ≤ tally one i
  tally-le (plain t) = omega arith
  tally-le (container t b total items) = tally_all-le items

  pub tally_all-le : (is : Items) → tally_all one_container is ≤ tally_all one is
  tally_all-le no_items = omega arith
  tally_all-le (item (plain t) is) = omega (arith, tally-le (plain t), tally_all-le is)
  tally_all-le (item (container t b total items) is) =
      omega (arith, tally-le (container t b total items), tally_all-le is)

get_item_by_index-change_at :
    (n : ℕ) (f : Item → Item) (is : Items) (i : Item)
    → get_item_by_index n is ≡ some i
    → get_item_by_index n (change_at n f is) ≡ some (f i)
unfolding get_item_by_index change_at
get_item_by_index-change_at n f no_items i e = absurd (cc)
get_item_by_index-change_at zero f (item j js) i e = cc e
get_item_by_index-change_at (suc n) f (item j js) i e = get_item_by_index-change_at n f js i e

item_at-one :
    (n : ℕ) (s : Thing) (c : Box) (sum : ℕ) (is : Items) (i : Item)
    → get_item_by_index n is ≡ some i
    → item_at (n ∷ []) (container s c sum is) ≡ some i
unfolding item_at
item_at-one n s c sum is i found = rw (found, item_at) refl

item_at-changed :
    (f : Items → Items) (d n : ℕ) (p : List ℕ) (s : Thing) (c : Box) (sum : ℕ) (is : Items)
    (i : Item)
    → get_item_by_index n is ≡ some i
    → item_at (n ∷ []) (changed f d (n ∷ p) (container s c sum is)) ≡ some (changed f d p i)
unfolding change_items update_item_weight
item_at-changed f d n p s c sum is i found = item_at-one n s c _ _ (changed f d p i) (
    ap (get_item_by_index n) (change_at-change_at n (change_items f p) (update_item_weight d p) is)
    ∙ get_item_by_index-change_at n (changed f d p) is i found)

module _ (g : Item → ℕ)
    (alike : (t : Thing) (b : Box) (total total' : ℕ) (is is' : Items)
      → g (container t b total is) ≡ g (container t b total' is')) where
  -- What a change adds to the container that the limits are about.
  pub tally-top :
      (f : Items → Items) (d : ℕ) (p : List ℕ) (root : Item) (t : Thing) (b : Box) (total : ℕ)
      (items : Items)
      → item_at p root ≡ some (container t b total items)
      → tally_all g (items_of (item_at (take 1 p) (changed f d p root))) + tally_all g items
        ≡ tally_all g (items_of (item_at (take 1 p) root)) + tally_all g (f items)
  unfolding item_at
  tally-top f d [] root t b total items e = omega (
    arith,
    tally-changed g alike f d [] root t b total items e,
    tally_all-items_of g root,
    tally_all-items_of g (changed f d [] root),
  )
  tally-top f d (n ∷ p) (plain s) t b total items e = absurd (cc)
  tally-top f d (n ∷ p) (container s c sum is) t b total items e =
      elim (Option-cases (get_item_by_index n is)) [
        | inl missing ↦ absurd (cc (rw (missing, item_at) at e))
        | inr (i, found) ↦
            let below = tally-changed g alike f d p i t b total items (rw (found, item_at) at e) in
            omega (
              arith,
              below,
              tally_all-items_of g i,
              tally_all-items_of g (changed f d p i),
              ap (λ (o : Option Item). tally_all g (items_of o)) (item_at-one n s c sum is i found),
              ap (λ (o : Option Item). tally_all g (items_of o))
                  (item_at-changed f d n p s c sum is i found),
            )
      ]
