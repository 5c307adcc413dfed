-- ===== src/Names/Listing.antt =====
-- The list of the names in the tree of src/wildcardtree.cpp, and its members.
use zenonia.Base.{
  ℕ, ◌≡◌, refl, sym, ◌∙◌, Bool, true, false, ◌&&◌, ◌||◌, none, List, [], ◌∷◌, ◌++◌, ◌==◌, arith,
  Bool-cases, inl, inr, map, same_bytes, same_bytes_refl, ==-refl,
}
use zenonia.Names.{Tree, Children, node, nil, cons, get_child, contains}
use zenonia.Names.Find.{
  IsWellFormed, AreWellFormed, children_of, names, names_below, matches, is_prefix,
}
use zenonia.Names.Contents.{below, contains-nil, contains-cons}

unfoldable pub member : List ℕ → List (List ℕ) → Bool
member n [] = false
member n (m ∷ ms) = same_bytes m n || member n ms

member-append :
    (n : List ℕ) (xs ys : List (List ℕ)) → member n (xs ++ ys) ≡ (member n xs || member n ys)
unfolding member
member-append n [] ys = refl
member-append n (x ∷ xs) ys = ground (arith, member-append n xs ys)

member-map :
    (c k : ℕ) (n : List ℕ) (ns : List (List ℕ))
    → member (c ∷ n) (map (λ name. k ∷ name) ns) ≡ ((k == c) && member n ns)
unfolding member same_bytes
member-map c k n [] = ground arith
member-map c k n (m ∷ ns) = ground (arith, member-map c k n ns)

member-map_nil : (k : ℕ) (ns : List (List ℕ)) → member [] (map (λ name. k ∷ name) ns) ≡ false
unfolding member same_bytes
member-map_nil k [] = refl
member-map_nil k (m ∷ ns) = member-map_nil k ns

member-nil_below : (ts : Children) → member [] (names_below ts) ≡ false
unfolding names_below
member-nil_below nil = unfold member in refl
member-nil_below (cons k t ts) = rw (
  member-append [] (map (λ name. k ∷ name) (names t)) (names_below ts),
  member-map_nil k (names t),
  member-nil_below ts,
)

member-names_below :
    (c : ℕ) (n : List ℕ) (ts : Children)
    → AreWellFormed ts
    → ((t : Tree) → IsWellFormed t → contains n t ≡ member n (names t))
    → member (c ∷ n) (names_below ts) ≡ below n (get_child c ts)
unfolding names_below get_child
member-names_below c n nil h ih = unfold member in refl
member-names_below c n (cons k t ts) (fresh, (wf, wfs)) ih =
    rw
      (
        member-append (c ∷ n) (map (λ name. k ∷ name) (names t)) (names_below ts),
        member-map c k n (names t),
        member-names_below c n ts wfs ih,
      )
      (elim (Bool-cases (k == c)) [
        | inl e ↦
            let eq : k ≡ c = ground (arith, e) in
            let gone : get_child c ts ≡ none = rw eq at fresh in
            rw (e, gone, ih t wf) (or_false (member n (names t)))
        | inr e ↦ rw e
      ])
  where
    or_false : (b : Bool) → (b || false) ≡ b
    or_false b = ground arith

wf_children : (t : Tree) → IsWellFormed t → AreWellFormed (children_of t)
wf_children (node b ts) h = h.1

-- The list has the names that the tree has.
pub contains-names :
    (n : List ℕ) (t : Tree) → AreWellFormed (children_of t) → contains n t ≡ member n (names t)
unfolding names member same_bytes
contains-names [] (node true ts) h = contains-nil true ts
contains-names [] (node false ts) h = contains-nil false ts ∙ sym (member-nil_below ts)
contains-names (c ∷ n) (node true ts) h =
    contains-cons c n true ts
    ∙ sym (member-names_below c n ts h (λ t wf. contains-names n t (wf_children t wf)))
contains-names (c ∷ n) (node false ts) h =
    contains-cons c n false ts
    ∙ sym (member-names_below c n ts h (λ t wf. contains-names n t (wf_children t wf)))

pub same_bytes-eq : (xs ys : List ℕ) → same_bytes xs ys ≡ true → xs ≡ ys
unfolding same_bytes
same_bytes-eq [] [] h = refl
same_bytes-eq [] (y ∷ ys) h = ground (arith, h)
same_bytes-eq (x ∷ xs) [] h = ground (arith, h)
same_bytes-eq (x ∷ xs) (y ∷ ys) h = ground (arith, h, same_bytes-eq xs ys)

pub member-matches :
    (n q : List ℕ) (ns : List (List ℕ)) → member n (matches q ns) ≡ (is_prefix q n && member n ns)
unfolding member matches
member-matches n q [] = ground arith
member-matches n q (m ∷ ns) = elim (Bool-cases (same_bytes m n)) [
  | inl e ↦
      let eq : m ≡ n = same_bytes-eq m n e in
      rw eq (ground (arith, same_bytes_refl n, member-matches n q ns))
  | inr e ↦ ground (arith, e, member-matches n q ns)
]

-- A list without the same name twice.
abbrev pub IsDistinct : List (List ℕ) → Type 0
IsDistinct [] = Unit
IsDistinct (n ∷ ns) = (member n ns ≡ false) × IsDistinct ns

IsDistinct-append :
    (xs ys : List (List ℕ))
    → IsDistinct xs
    → IsDistinct ys
    → ((n : List ℕ) → member n xs ≡ true → member n ys ≡ false)
    → IsDistinct (xs ++ ys)
unfolding member
IsDistinct-append [] ys hx hy apart = hy
IsDistinct-append (x ∷ xs) ys (new, hx) hy apart =
    let alone : member x ys ≡ false = apart x (first (member x xs)) in
    (
      rw (member-append x xs ys, new, alone),
      IsDistinct-append xs ys hx hy (λ n h. apart n (later n h)),
    )
  where
    first : (b : Bool) → (same_bytes x x || b) ≡ true
    first b = rw (same_bytes_refl x)

    later : (n : List ℕ) → member n xs ≡ true → (same_bytes x n || member n xs) ≡ true
    later n h = ground (arith, h)

IsDistinct-map :
    (k : ℕ) (ns : List (List ℕ)) → IsDistinct ns → IsDistinct (map (λ name. k ∷ name) ns)
IsDistinct-map k [] h = tt
IsDistinct-map k (n ∷ ns) (new, h) =
    (rw (member-map k k n ns, ==-refl k, new), IsDistinct-map k ns h)

pub IsDistinct-matches :
    (q : List ℕ) (ns : List (List ℕ)) → IsDistinct ns → IsDistinct (matches q ns)
unfolding matches
IsDistinct-matches q [] h = tt
IsDistinct-matches q (n ∷ ns) (new, h) = elim (Bool-cases (is_prefix q n)) [
  | inl e ↦
      rw e (rw (member-matches n q ns, new) (and_false (is_prefix q n)), IsDistinct-matches q ns h)
  | inr e ↦ rw e (IsDistinct-matches q ns h)
]
  where
    and_false : (b : Bool) → (b && false) ≡ false
    and_false b = ground arith

disjoint_siblings :
    (k : ℕ) (ns : List (List ℕ)) (ts : Children) (n : List ℕ)
    → get_child k ts ≡ none
    → AreWellFormed ts
    → member n (map (λ name. k ∷ name) ns) ≡ true
    → member n (names_below ts) ≡ false
disjoint_siblings k ns ts [] gone wfs h = member-nil_below ts
disjoint_siblings k ns ts (c ∷ n) gone wfs h =
    let both : (k == c) && member n ns ≡ true = rw (member-map c k n ns) at h in
    let eq : k ≡ c = ground (arith, both) in
    let gone' : get_child c ts ≡ none = rw eq at gone in
    member-names_below c n ts wfs (λ t wf. contains-names n t (wf_children t wf)) ∙ rw gone'

mutual
  unfolding names names_below

  pub IsDistinct-names : (t : Tree) → AreWellFormed (children_of t) → IsDistinct (names t)
  IsDistinct-names (node true ts) h = (member-nil_below ts, IsDistinct-names_below ts h)
  IsDistinct-names (node false ts) h = IsDistinct-names_below ts h

  IsDistinct-names_below : (ts : Children) → AreWellFormed ts → IsDistinct (names_below ts)
  IsDistinct-names_below nil h = tt
  IsDistinct-names_below (cons k t ts) (fresh, (wf, wfs)) =
      IsDistinct-append (map (λ name. k ∷ name) (names t)) (names_below ts)
        (IsDistinct-map k (names t) (IsDistinct-names t (wf_children t wf)))
        (IsDistinct-names_below ts wfs) (λ n h. disjoint_siblings k (names t) ts n fresh wfs h)
