-- ===== src/Containers/Iteration.antt =====
-- `ContainerIterator` of src/container.cpp: all things in a container, breadth first.
use zenonia.Base.{ℕ, zero, suc, ◌+◌, ◌≡◌, refl, ap, ◌∙◌, Option, none, some, List, [], ◌∷◌, ◌++◌}
use zenonia.Containers.{Item, plain, container, Items, no_items, item}

-- The items of the containers that are still to do, `over`, and what is left of the first one from `cur` on.
pub data ContainerIterator : Type 0 where
  over_at : List Items → Items → ContainerIterator

abbrev pub iterator : Items → ContainerIterator
iterator no_items = over_at [] no_items
iterator (item i is) = over_at (item i is ∷ []) (item i is)

-- A container that is not empty is put at the end of the queue.
abbrev pub enqueue : Item → List Items → List Items
enqueue (plain t) over = over
enqueue (container t b total no_items) over = over
enqueue (container t b total (item j js)) over = over ++ item j js ∷ []

-- The first container is done: on to the next one. `none` is the first element of an empty list.
abbrev pub next : List Items → Option ContainerIterator
next [] = none
next (o ∷ []) = some (over_at [] no_items)
next (o ∷ o' ∷ os) = some (over_at (o' ∷ os) o')

-- `advance`; `none` if `cur` is at an end.
abbrev pub advance : ContainerIterator → Option ContainerIterator
advance (over_at over no_items) = none
advance (over_at over (item i no_items)) = next (enqueue i over)
advance (over_at over (item i (item j js))) = some (over_at (enqueue i over) (item j js))

-- All things in a list of items.
unfoldable mutual
  pub holding : Item → ℕ
  holding (plain t) = 0
  holding (container t b total items) = holding_all items

  pub holding_all : Items → ℕ
  holding_all no_items = 0
  holding_all (item i is) = suc (holding i + holding_all is)

module _ {A : Type 0} (f : Item → A → A) where
  -- A loop over all things, with what it does to its variable; `none` if it follows an iterator that
  -- it must not, or if it does not come to an end in the rounds given.
  unfoldable pub each : ℕ → ContainerIterator → A → Option A
  each n (over_at [] cur) a = some a
  each zero (over_at (o ∷ os) cur) a = none
  each (suc n) (over_at (o ∷ os) no_items) a = none
  each (suc n) (over_at (o ∷ os) (item i rest)) a =
      elim (advance (over_at (o ∷ os) (item i rest))) [ none ↦ none | some it ↦ each n it (f i a) ]

  -- The same, depth first, as the items are nested.
  unfoldable mutual
    pub within : Item → A → A
    within (plain t) a = a
    within (container t b total items) a = within_all items a

    pub within_all : Items → A → A
    within_all no_items a = a
    within_all (item i is) a = within_all is (within i (f i a))

  unfoldable pub within_every : List Items → A → A
  within_every [] a = a
  within_every (o ∷ os) a = within_every os (within_all o a)

  module _ (commutes : (i j : Item) (a : A) → f i (f j a) ≡ f j (f i a)) where
    mutual
      unfolding within

      pub past : (i : Item) (j : Item) (a : A) → within i (f j a) ≡ f j (within i a)
      past (plain t) j a = refl
      past (container t b total items) j a = past_all items j a

      pub past_all : (is : Items) (j : Item) (a : A) → within_all is (f j a) ≡ f j (within_all is a)
      past_all no_items j a = refl
      past_all (item i is) j a =
          ap (λ c. within_all is (within i c)) (commutes i j a)
          ∙ ap (within_all is) (past i j (f i a))
          ∙ past_all is j (within i (f i a))

    mutual
      unfolding within

      pub swap :
          (is : Items) (j : Item) (a : A) → within_all is (within j a) ≡ within j (within_all is a)
      swap is (plain t) a = refl
      swap is (container t b total js) a = swap_all is js a

      pub swap_all :
          (is : Items) (js : Items) (a : A)
          → within_all is (within_all js a) ≡ within_all js (within_all is a)
      swap_all is no_items a = refl
      swap_all is (item j js) a =
          swap_all is js (within j (f j a))
          ∙ ap (within_all js) (swap is j (f j a) ∙ ap (within j) (past_all is j a))

    pub within_every-append :
        (xs ys : List Items) (a : A)
        → within_every (xs ++ ys) a ≡ within_every ys (within_every xs a)
    unfolding within_every
    within_every-append [] ys a = refl
    within_every-append (x ∷ xs) ys a = within_every-append xs ys (within_all x a)

    pub swap_every :
        (os : List Items) (is : Items) (a : A)
        → within_every os (within_all is a) ≡ within_all is (within_every os a)
    unfolding within_every
    swap_every [] is a = refl
    swap_every (o ∷ os) is a =
        ap (within_every os) (swap_all o is a) ∙ swap_every os is (within_all o a)
