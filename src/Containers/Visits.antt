-- ===== src/Containers/Visits.antt =====
-- The iterator of src/container.cpp visits all things in a container, each of them once.
use zenonia.Base.{
  ℕ, zero, suc, ◌+◌, ◌≤◌, ◌≡◌, ◌≢◌, refl, sym, ap, ◌∙◌, Option, none, some, List, [], ◌∷◌, ◌++◌,
  arith, All,
}
use zenonia.Containers.{Item, plain, container, Items, no_items, item}
use zenonia.Containers.Iteration.{
  over_at, iterator, enqueue, next, holding, holding_all, each, within, within_all, within_every,
  swap, swap_every, within_every-append,
}

abbrev Ready : List Items → Type 0
Ready os = All (λ (o : Items). o ≢ no_items) os

holding_every : List Items → ℕ
holding_every [] = 0
holding_every (o ∷ os) = holding_all o + holding_every os

holding_every-append :
    (os : List Items) (o : Items) → holding_every (os ++ o ∷ []) ≡ holding_every os + holding_all o
unfolding holding_every
holding_every-append [] o = omega arith
holding_every-append (x ∷ os) o = omega (arith, holding_every-append os o)

Ready-append : (os : List Items) (o : Items) → o ≢ no_items → Ready os → Ready (os ++ o ∷ [])
Ready-append [] o ne h = (ne, tt)
Ready-append (x ∷ os) o ne h = (h.0, Ready-append os o ne h.1)

holding_every-enqueue :
    (i : Item) (os : List Items) → holding_every (enqueue i os) ≡ holding_every os + holding i
unfolding holding
holding_every-enqueue (plain t) os = omega arith
holding_every-enqueue (container t b total no_items) os = omega arith
holding_every-enqueue (container t b total (item j js)) os = holding_every-append os (item j js)

enqueue-Ready : (i : Item) (os : List Items) → Ready os → Ready (enqueue i os)
enqueue-Ready (plain t) os h = h
enqueue-Ready (container t b total no_items) os h = h
enqueue-Ready (container t b total (item j js)) os h = Ready-append os (item j js) (λ e. cc) h

enqueue-cons : (i : Item) (o : Items) (os : List Items) → enqueue i (o ∷ os) ≡ o ∷ enqueue i os
enqueue-cons (plain t) o os = refl
enqueue-cons (container t b total no_items) o os = refl
enqueue-cons (container t b total (item j js)) o os = refl

module _ {A : Type 0} (f : Item → A → A)
    (commutes : (i j : Item) (a : A) → f i (f j a) ≡ f j (f i a)) where
  within_every-enqueue :
      (i : Item) (os : List Items) (a : A)
      → within_every f (enqueue i os) a ≡ within f i (within_every f os a)
  unfolding within within_every
  within_every-enqueue (plain t) os a = refl
  within_every-enqueue (container t b total no_items) os a = refl
  within_every-enqueue (container t b total (item j js)) os a =
      within_every-append f commutes os (item j js ∷ []) a

  -- From any position on: what is left of the container, then the queue.
  abbrev Visits : ℕ → Type 0
  Visits n =
      (o : Items) (os : List Items) (cur : Items) (a : A)
      → cur ≢ no_items
      → Ready os
      → holding_all cur + holding_every os ≤ n
      → each f n (over_at (o ∷ os) cur) a ≡ some (within_every f os (within_all f cur a))

  each_over : (n : ℕ) (cur : Items) (a : A) → each f n (over_at [] cur) a ≡ some a
  unfolding each
  each_over zero cur a = refl
  each_over (suc n) cur a = refl

  -- At the end of a container.
  each_next :
      (n : ℕ)
      → Visits n
      → (o : Items) (os : List Items) (a : A) → Ready os
      → holding_every os ≤ n
      → ◌≡◌ {A = Option A}
          (elim (next (o ∷ os)) [ none ↦ none | some it ↦ each f n it a ])
          (some (within_every f os a))
  unfolding within_every holding_every
  each_next n visits o [] a h less = each_over n no_items a
  each_next n visits o (o' ∷ os) a h less = visits o' os o' a h.0 h.1 less

  within_every-within :
      (i : Item) (os : List Items) (a : A)
      → within f i (within_every f os a) ≡ within_every f os (within f i a)
  unfolding within
  within_every-within (plain t) os a = refl
  within_every-within (container t b total items) os a = sym (swap_every f commutes os items a)

  each-within : (n : ℕ) → Visits n
  unfolding each within holding
  each-within n o os no_items a ne ready enough = absurd (ne refl)
  each-within zero o os (item i is) a ne ready enough = absurd (omega arith)
  each-within (suc n) o os (item i no_items) a ne ready enough =
      rw (enqueue-cons i o os, each)
        (each_next n (each-within n) o (enqueue i os) (f i a) (enqueue-Ready i os ready)
            (omega (arith, holding_every-enqueue i os))
          ∙ ap some (within_every-enqueue i os (f i a) ∙ within_every-within i os (f i a)))
  each-within (suc n) o os (item i (item j js)) a ne ready enough =
      rw (enqueue-cons i o os, each)
        (each-within n o (enqueue i os) (item j js) (f i a) (λ e. cc) (enqueue-Ready i os ready)
            (omega (arith, holding_every-enqueue i os))
          ∙ ap some (
              within_every-enqueue i os (within_all f (item j js) (f i a))
              ∙ within_every-within i os (within_all f (item j js) (f i a))
              ∙ ap (within_every f os) (sym (swap f commutes (item j js) i (f i a)))))

  -- The loop over all things in a container, with as many rounds as there are things, or more, comes to
  -- an end and never follows an iterator that it must not. It does with them what the walk through the
  -- nested containers does, if the order of two things makes no difference.
  pub each-iterator :
      (n : ℕ) (is : Items) (a : A)
      → holding_all is ≤ n
      → each f n (iterator is) a ≡ some (within_all f is a)
  unfolding within within_every holding holding_every
  each-iterator n no_items a enough = each_over n no_items a
  each-iterator n (item i is) a enough =
      each-within n (item i is) [] (item i is) a (λ e. cc) tt (omega arith)
