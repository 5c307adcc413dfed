-- ===== src/Containers/Weights.antt =====
-- The weights of src/container.cpp: `totalWeight` of every container against the items in it.
use zenonia.Base.{
  ℕ, zero, suc, ◌+◌, ◌%◌, ◌^◌, ◌<◌, ◌≡◌, refl, sym, ap, subst, some, List, [], ◌∷◌, arith,
  Option-cases, inl, inr,
}
use zenonia.Containers.{
  ItemType, Thing, Box, Item, plain, container, Items, no_items, item, push_back, get_item_by_index,
  erase, change_at, item_at, thing_weight, get_weight, update_item_weight, change_items, changed,
}

module _ (types : ℕ → ItemType) where
  -- The weights of a list of items, added up in 32 bits.
  unfoldable pub content_weight : Items → ℕ
  content_weight no_items = 0
  content_weight (item i is) = (get_weight types i + content_weight is) % 2 ^ 32

  -- Every container has the weight of its items in `totalWeight`.
  unfoldable mutual
    pub IsWeighed : Item → Type 0
    IsWeighed (plain t) = Unit
    IsWeighed (container t b total items) = (total ≡ content_weight items) × AreWeighed items

    pub AreWeighed : Items → Type 0
    AreWeighed no_items = Unit
    AreWeighed (item i is) = IsWeighed i × AreWeighed is

  pub get_weight-lt : (i : Item) → get_weight types i < 2 ^ 32
  unfolding get_weight thing_weight
  get_weight-lt (plain t) = ground arith
  get_weight-lt (container t b total items) = ground arith

  pub content_weight-lt : (is : Items) → content_weight is < 2 ^ 32
  unfolding content_weight
  content_weight-lt no_items = omega arith
  content_weight-lt (item i is) = omega arith

  pub content_weight-push_back :
      (i : Item) (is : Items)
      → content_weight (push_back i is) ≡ (content_weight is + get_weight types i) % 2 ^ 32
  unfolding content_weight push_back
  content_weight-push_back i no_items = omega arith
  content_weight-push_back i (item j js) = omega (arith, content_weight-push_back i js)

  pub AreWeighed-push_back :
      (i : Item) (is : Items) → IsWeighed i → AreWeighed is → AreWeighed (push_back i is)
  unfolding push_back IsWeighed
  AreWeighed-push_back i no_items h hs = (h, tt)
  AreWeighed-push_back i (item j js) h hs = (hs.0, AreWeighed-push_back i js h hs.1)

  pub AreWeighed-get :
      (n : ℕ) (is : Items) (i : Item)
      → get_item_by_index n is ≡ some i
      → AreWeighed is
      → IsWeighed i
  unfolding get_item_by_index IsWeighed
  AreWeighed-get n no_items i e hs = absurd (cc)
  AreWeighed-get zero (item j js) i e hs = subst (IsWeighed) (cc e) hs.0
  AreWeighed-get (suc n) (item j js) i e hs = AreWeighed-get n js i e hs.1

  pub content_weight-erase :
      (n : ℕ) (is : Items) (i : Item)
      → get_item_by_index n is ≡ some i
      → (content_weight (erase n is) + get_weight types i) % 2 ^ 32 ≡ content_weight is
  unfolding content_weight get_item_by_index erase
  content_weight-erase n no_items i e = absurd (cc)
  content_weight-erase zero (item j js) i e =
      let same : j ≡ i = cc e in omega (arith, ap (get_weight types) same)
  content_weight-erase (suc n) (item j js) i e = omega (arith, content_weight-erase n js i e)

  pub AreWeighed-erase : (n : ℕ) (is : Items) → AreWeighed is → AreWeighed (erase n is)
  unfolding IsWeighed erase
  AreWeighed-erase n no_items hs = tt
  AreWeighed-erase zero (item j js) hs = hs.1
  AreWeighed-erase (suc n) (item j js) hs = (hs.0, AreWeighed-erase n js hs.1)

  pub content_weight-change_at :
      (n : ℕ) (f : Item → Item) (is : Items) (i : Item)
      → get_item_by_index n is ≡ some i
      → (content_weight (change_at n f is) + get_weight types i) % 2 ^ 32
        ≡ (content_weight is + get_weight types (f i)) % 2 ^ 32
  unfolding content_weight get_item_by_index change_at
  content_weight-change_at n f no_items i e = absurd (cc)
  content_weight-change_at zero f (item j js) i e =
      let same : j ≡ i = cc e in
      omega (arith, ap (get_weight types) same, ap (λ (k : Item). get_weight types (f k)) same)
  content_weight-change_at (suc n) f (item j js) i e =
      omega (arith, content_weight-change_at n f js i e)

  pub AreWeighed-change_at :
      (n : ℕ) (f : Item → Item) (is : Items) (i : Item)
      → get_item_by_index n is ≡ some i
      → IsWeighed (f i)
      → AreWeighed is
      → AreWeighed (change_at n f is)
  unfolding IsWeighed get_item_by_index change_at
  AreWeighed-change_at n f no_items i e h hs = tt
  AreWeighed-change_at zero f (item j js) i e h hs =
      (subst (λ k. IsWeighed (f k)) (sym (cc e)) h, hs.1)
  AreWeighed-change_at (suc n) f (item j js) i e h hs =
      (hs.0, AreWeighed-change_at n f js i e h hs.1)

pub item_at-IsWeighed :
    (types : ℕ → ItemType) (p : List ℕ) (root i : Item)
    → item_at p root ≡ some i
    → IsWeighed types root
    → IsWeighed types i
unfolding item_at IsWeighed
item_at-IsWeighed types [] root i e h = subst (IsWeighed types) (cc e) h
item_at-IsWeighed types (n ∷ p) (plain t) i e h = absurd (cc)
item_at-IsWeighed types (n ∷ p) (container t b total items) i e h =
    elim (Option-cases (get_item_by_index n items)) [
      | inl missing ↦ absurd (cc (rw (missing, item_at) at e))
      | inr (j, found) ↦
          item_at-IsWeighed types p j i (rw (found, item_at) at e)
            (AreWeighed-get types n items j found h.1)
    ]

pub change_at-change_at :
    (n : ℕ) (f g : Item → Item) (is : Items)
    → change_at n g (change_at n f is) ≡ change_at n (λ i. g (f i)) is
unfolding change_at
change_at-change_at n f g no_items = refl
change_at-change_at zero f g (item i is) = refl
change_at-change_at (suc n) f g (item i is) = ap (item i) (change_at-change_at n f g is)

module _ (types : ℕ → ItemType) where
  -- What a change of a container makes of the outermost one.
  abbrev Keeps : ℕ → Item → Item → Type 0
  Keeps d root root' =
      IsWeighed types root' × (get_weight types root' ≡ (get_weight types root + d) % 2 ^ 32)

  -- A change keeps the weights right if its difference is that of the list it changes.
  pub changed-IsWeighed :
      (f : Items → Items) (d : ℕ) (p : List ℕ) (root : Item) (t : Thing) (b : Box) (total : ℕ)
      (items : Items)
      → item_at p root ≡ some (container t b total items)
      → IsWeighed types root
      → AreWeighed types (f items)
      → content_weight types (f items) ≡ (content_weight types items + d) % 2 ^ 32
      → Keeps d root (changed f d p root)
  unfolding item_at change_items update_item_weight IsWeighed get_weight
  changed-IsWeighed f d [] (plain s) t b total items e h hs w = absurd (cc)
  changed-IsWeighed f d [] (container s c sum is) t b total items e h hs w =
      let same : is ≡ items = cc e in
      (
        (
          rw same (omega (arith, w, h.0, ap (content_weight types) same)),
          subst (λ k. AreWeighed types (f k)) (sym same) hs,
        ),
        omega arith,
      )
  changed-IsWeighed f d (n ∷ p) (plain s) t b total items e h hs w = absurd (cc)
  changed-IsWeighed f d (n ∷ p) (container s c sum is) t b total items e h hs w =
      elim (Option-cases (get_item_by_index n is)) [
        | inl missing ↦ absurd (cc (rw (missing, item_at) at e))
        | inr (i, found) ↦
            let below =
              changed-IsWeighed f d p i t b total items (rw (found, item_at) at e)
                (AreWeighed-get types n is i found h.1) hs w in
            let g = λ (k : Item). update_item_weight d p (change_items f p k) in
            let moved = content_weight-change_at types n g is i found in
            rw (change_at-change_at n (change_items f p) (update_item_weight d p) is) (
              (
                omega (
                  arith,
                  moved,
                  below.1,
                  h.0,
                  content_weight-lt types (change_at n g is),
                  content_weight-lt types is,
                ),
                AreWeighed-change_at types n g is i found below.0 h.1,
              ),
              omega arith,
            )
      ]
