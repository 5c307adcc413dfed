-- ===== src/Names/Contents.antt =====
-- What the operations of src/wildcardtree.cpp do to the set of names.
use zenonia.Base.{
  ℕ, ◌≡◌, refl, ap, Bool, true, false, not, ◌&&◌, ◌||◌, Option, none, some, List, [], ◌∷◌, ◌==◌,
  if◌then◌else◌, arith, Bool-cases, inl, inr, same_bytes,
}
use zenonia.Names.{
  Tree, Children, node, nil, cons, get_child, add_child, update, keep_or_erase, is_bare, insert,
  remove, remove_from, contains, replace_child,
}
use zenonia.Names.Lookup.{marked, get_child-add_child, get_child-update, get_child-erase}

pub contains_bare : (name : List ℕ) (t : Tree) → is_bare t ≡ true → contains name t ≡ false
unfolding contains get_child
contains_bare [] (node false nil) h = refl
contains_bare (c ∷ cs) (node false nil) h = refl
contains_bare name (node true ts) h = ground arith
contains_bare name (node false (cons k t ts)) h = ground arith

-- Whether a name is below a child that may be there.
abbrev pub below : List ℕ → Option Tree → Bool
below name none = false
below name (some t) = contains name t

pub contains-nil : (b : Bool) (ts : Children) → contains [] (node b ts) ≡ b
unfolding contains
contains-nil b ts = refl

pub contains-cons :
    (k : ℕ) (name : List ℕ) (b : Bool) (ts : Children)
    → contains (k ∷ name) (node b ts) ≡ below name (get_child k ts)
unfolding contains
contains-cons k name b ts = step (get_child k ts)
  where
    step :
        (o : Option Tree)
        → elim o as (λ _. Bool) [ none ↦ false | some t ↦ contains name t ] ≡ below name o
    step none = refl
    step (some t) = refl

below-marked : (name : List ℕ) (o : Option Tree) → contains name (marked false o) ≡ below name o
unfolding contains get_child
below-marked [] none = refl
below-marked (c ∷ cs) none = refl
below-marked [] (some (node b kids)) = ground arith
below-marked (c ∷ cs) (some (node b kids)) = refl

below-marked-true :
    (name : List ℕ) (o : Option Tree)
    → contains name (marked true o) ≡ (same_bytes name [] || below name o)
unfolding contains get_child same_bytes
below-marked-true [] none = refl
below-marked-true (c ∷ cs) none = refl
below-marked-true [] (some (node b kids)) = ground arith
below-marked-true (c ∷ cs) (some (node b kids)) = refl

same_key :
    (k ch : ℕ) (ts : Children)
    → (ch == k) ≡ true
    → ((k == ch) ≡ true) × (get_child k ts ≡ get_child ch ts)
same_key k ch ts e =
    let eq : k ≡ ch = ground (arith, e) in (ground (arith, e), ap (λ x. get_child x ts) eq)

other_key : (k ch : ℕ) → (ch == k) ≡ false → (k == ch) ≡ false
other_key k ch e = ground (arith, e)

-- After a name is inserted the tree has it and the names it had.
pub contains-insert :
    (name : List ℕ) (ch : ℕ) (cs : List ℕ) (t : Tree)
    → contains name (insert ch cs t) ≡ (same_bytes name (ch ∷ cs) || contains name t)
unfolding insert same_bytes
contains-insert [] ch [] (node b ts) = rw (contains-nil b (add_child ch true ts), contains-nil b ts)
contains-insert [] ch (c ∷ cs) (node b ts) =
    rw (contains-nil b (update ch (insert c cs) (add_child ch false ts)), contains-nil b ts)
contains-insert (k ∷ name) ch [] (node b ts) =
    rw
      (
        contains-cons k name b (add_child ch true ts),
        contains-cons k name b ts,
        get_child-add_child k ch true ts,
      )
      (elim (Bool-cases (ch == k)) [
        | inl e ↦
            let (same, child) = same_key k ch ts e in
            rw (e, same, child) (below-marked-true name (get_child ch ts))
        | inr e ↦ rw (e, other_key k ch e)
      ])
contains-insert (k ∷ name) ch (c ∷ cs) (node b ts) =
    rw
      (
        contains-cons k name b (update ch (insert c cs) (add_child ch false ts)),
        contains-cons k name b ts,
        get_child-update k ch (insert c cs) (add_child ch false ts),
        get_child-add_child k ch false ts,
      )
      (elim (Bool-cases (ch == k)) [
        | inl e ↦
            let (same, child) = same_key k ch ts e in
            rw (
              e,
              same,
              child,
              contains-insert name c cs (marked false (get_child ch ts)),
              below-marked name (get_child ch ts),
            )
        | inr e ↦ rw (e, other_key k ch e)
      ])

-- Whether a name is below what `remove_from` makes of a child.
below-keep_or_erase :
    (k c : ℕ) (name : List ℕ) (t t' : Tree) (ts : Children)
    → get_child c ts ≡ some t
    → below name (get_child k (keep_or_erase c t' ts))
      ≡ (if c == k then contains name t' else below name (get_child k ts))
unfolding keep_or_erase
below-keep_or_erase k c name t t' ts h = elim (Bool-cases (is_bare t')) [
  | inl bare ↦
      rw (bare, get_child-erase k c ts)
        (elim (Bool-cases (c == k)) [ inl e ↦ rw (e, contains_bare name t' bare) | inr e ↦ rw e ])
  | inr kept ↦
      rw (kept, get_child-update k c (λ _. t') ts)
        (elim (Bool-cases (c == k)) [ inl e ↦ rw (e, (same_key k c ts e).1, h) | inr e ↦ rw e ])
]

-- What `remove_from` does to the names, for either result.
abbrev Removes : List ℕ → List ℕ → Tree → Option Tree → Type 0
Removes name s t none = (same_bytes name s && contains name t) ≡ false
Removes name s t (some t') = contains name t' ≡ (not (same_bytes name s) && contains name t)

module _ (k c : ℕ) (name s : List ℕ) (b : Bool) (ts : Children) where
  removed_below :
      (t : Tree) (o : Option Tree)
      → get_child c ts ≡ some t
      → Removes name s t o
      → Removes (k ∷ name) (c ∷ s) (node b ts) (replace_child b c ts o)
  unfolding same_bytes
  removed_below t none h r = elim (Bool-cases (c == k)) [
    | inl e ↦ rw (contains-cons k name b ts, (same_key k c ts e).0, (same_key k c ts e).1, h) r
    | inr e ↦ rw (other_key k c e)
  ]
  removed_below t (some t') h r =
      rw
        (
          contains-cons k name b (keep_or_erase c t' ts),
          contains-cons k name b ts,
          below-keep_or_erase k c name t t' ts h,
        )
        (elim (Bool-cases (c == k)) [
          | inl e ↦ rw (e, (same_key k c ts e).0, (same_key k c ts e).1, h) r
          | inr e ↦ rw (e, other_key k c e)
        ])

  absent : get_child c ts ≡ none → Removes (k ∷ name) (c ∷ s) (node b ts) none
  unfolding same_bytes
  absent h = elim (Bool-cases (c == k)) [
    | inl e ↦
        rw (contains-cons k name b ts, (same_key k c ts e).0, (same_key k c ts e).1, h)
          (ground arith)
    | inr e ↦ rw (other_key k c e)
  ]

-- A child's names do not matter to the empty one.
removed_nil :
    (c : ℕ) (s : List ℕ) (b : Bool) (ts : Children) (o : Option Tree)
    → Removes [] (c ∷ s) (node b ts) (replace_child b c ts o)
unfolding same_bytes
removed_nil c s b ts none = refl
removed_nil c s b ts (some t) = rw (contains-nil b (keep_or_erase c t ts), contains-nil b ts)

remove_from-Removes : (name s : List ℕ) (t : Tree) → Removes name s t (remove_from s t)
unfolding remove_from same_bytes
remove_from-Removes [] [] (node b ts) = contains-nil false ts
remove_from-Removes (k ∷ name) [] (node b ts) =
    rw (contains-cons k name false ts, contains-cons k name b ts)
remove_from-Removes [] (c ∷ s) (node b ts) = at_child (get_child c ts)
  where
    at_child :
        (o : Option Tree)
        → Removes [] (c ∷ s) (node b ts) (elim o as (λ _. Option Tree) [
          | none ↦ none
          | some t ↦ replace_child b c ts (remove_from s t)
        ])
    at_child none = refl
    at_child (some t) = removed_nil c s b ts (remove_from s t)
remove_from-Removes (k ∷ name) (c ∷ s) (node b ts) =
    at_child (get_child c ts) refl (λ t. remove_from-Removes name s t)
  where
    at_child :
        (o : Option Tree)
        → get_child c ts ≡ o
        → ((t : Tree) → Removes name s t (remove_from s t))
        → Removes (k ∷ name) (c ∷ s) (node b ts) (elim o as (λ _. Option Tree) [
          | none ↦ none
          | some t ↦ replace_child b c ts (remove_from s t)
        ])
    at_child none h ih = absent k c name s b ts h
    at_child (some t) h ih = removed_below k c name s b ts t (remove_from s t) h (ih t)

-- After a name is removed the tree has the other names it had.
pub contains-remove :
    (name s : List ℕ) (t : Tree)
    → contains name (remove s t) ≡ (not (same_bytes name s) && contains name t)
unfolding remove
contains-remove name s t = removed (remove_from s t) (remove_from-Removes name s t)
  where
    removed :
        (o : Option Tree)
        → Removes name s t o
        → contains name (elim o as (λ _. Tree) [ none ↦ t | some t' ↦ t' ])
          ≡ (not (same_bytes name s) && contains name t)
    removed none r = ground (arith, r)
    removed (some t') r = r
