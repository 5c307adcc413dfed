-- ===== src/Names/Find.antt =====
-- What `findOne` of src/wildcardtree.cpp answers, against the list of all names.
use zenonia.Base.{
  ℕ, ◌≡◌, refl, sym, ap, ◌∙◌, Bool, true, false, ◌&&◌, Option, none, some, List, [], ◌∷◌, ◌++◌,
  ◌==◌, if◌then◌else◌, arith, Bool-cases, inl, inr, map, append-nil, append_assoc,
}
use zenonia.Names.{
  Tree, Children, node, nil, cons, get_child, is_bare, Answer, not_online, extend, find_from,
  find_one,
}

unfoldable mutual
  pub names : Tree → List (List ℕ)
  names (node b ts) = if b then [] ∷ names_below ts else names_below ts

  pub names_below : Children → List (List ℕ)
  names_below nil = []
  names_below (cons k t ts) = map (λ name. k ∷ name) (names t) ++ names_below ts

-- A node below the root that has no child ends a name, and a node's children have different keys.
abbrev mutual
  pub IsWellFormed : Tree → Type 0
  IsWellFormed (node b ts) = (is_bare (node b ts) ≡ false) × AreWellFormed ts

  pub AreWellFormed : Children → Type 0
  AreWellFormed nil = Unit
  AreWellFormed (cons k t ts) = (get_child k ts ≡ none) × (IsWellFormed t × AreWellFormed ts)

abbrev pub children_of : Tree → Children
children_of (node b ts) = ts

unfoldable pub is_prefix : List ℕ → List ℕ → Bool
is_prefix [] name = true
is_prefix (c ∷ cs) [] = false
is_prefix (c ∷ cs) (k ∷ name) = (k == c) && is_prefix cs name

-- The names that begin with a query.
unfoldable pub matches : List ℕ → List (List ℕ) → List (List ℕ)
matches query [] = []
matches query (n ∷ ns) = let rest = matches query ns in if is_prefix query n then n ∷ rest else rest

abbrev pub verdict : List (List ℕ) → Answer
verdict [] = Answer.not_online
verdict (n ∷ []) = Answer.found n
verdict (n ∷ n' ∷ ns) = Answer.ambiguous

matches-nil_lem : (ns : List (List ℕ)) → matches [] ns ≡ ns
unfolding matches is_prefix
matches-nil_lem [] = refl
matches-nil_lem (n ∷ ns) = ap (λ l. n ∷ l) (matches-nil_lem ns)

matches-append :
    (q : List ℕ) (xs ys : List (List ℕ)) → matches q (xs ++ ys) ≡ matches q xs ++ matches q ys
unfolding matches
matches-append q [] ys = refl
matches-append q (x ∷ xs) ys = ground (arith, matches-append q xs ys)

matches-map :
    (c k : ℕ) (cs : List ℕ) (ns : List (List ℕ))
    → matches (c ∷ cs) (map (λ name. k ∷ name) ns)
      ≡ (if k == c then map (λ name. k ∷ name) (matches cs ns) else [])
unfolding matches is_prefix
matches-map c k cs [] = ground arith
matches-map c k cs (n ∷ ns) = ground (arith, matches-map c k cs ns)

abbrev matches_at : ℕ → List ℕ → Option Tree → List (List ℕ)
matches_at c cs none = []
matches_at c cs (some t) = map (λ name. c ∷ name) (matches cs (names t))

matches-names_below :
    (c : ℕ) (cs : List ℕ) (ts : Children)
    → AreWellFormed ts
    → matches (c ∷ cs) (names_below ts) ≡ matches_at c cs (get_child c ts)
unfolding matches names_below get_child
matches-names_below c cs nil h = refl
matches-names_below c cs (cons k t ts) (fresh, (wf, wfs)) =
    rw
      (
        matches-append (c ∷ cs) (map (λ name. k ∷ name) (names t)) (names_below ts),
        matches-map c k cs (names t),
        matches-names_below c cs ts wfs,
      )
      (elim (Bool-cases (k == c)) [
        | inl e ↦
            let eq : k ≡ c = ground (arith, e) in
            let gone : get_child c ts ≡ none = rw eq at fresh in
            rw (e, gone, append-nil (map (λ name. k ∷ name) (matches cs (names t))))
              (ap (λ x. map (λ name. x ∷ name) (matches cs (names t))) eq)
        | inr e ↦ rw e
      ])

-- A node below the root has a name.
names-IsWellFormed :
    (t : Tree) → IsWellFormed t → (n : List ℕ) × ((ns : List (List ℕ)) × (names t ≡ n ∷ ns))
unfolding names names_below
names-IsWellFormed (node true ts) h = ([], (names_below ts, refl))
names-IsWellFormed (node false nil) h = ground (arith, h)
names-IsWellFormed (node false (cons k t ts)) (bare, (fresh, (wf, wfs))) =
    let (n, (ns, e)) = names-IsWellFormed t wf in
    (k ∷ n, (map (λ name. k ∷ name) ns ++ names_below ts, rw e))

verdict_two :
    (f g : List ℕ → List ℕ) (n n' : List ℕ) (ns ns' : List (List ℕ))
    → verdict (map f (n ∷ (map g ns ++ (n' ∷ ns')))) ≡ Answer.ambiguous
verdict_two f g n n' [] ns' = refl
verdict_two f g n n' (m ∷ ns) ns' = refl

map-map_path :
    (r : List ℕ) (k : ℕ) (ns : List (List ℕ))
    → map (λ name. (r ++ (k ∷ [])) ++ name) ns ≡ map (λ name. r ++ name) (map (λ name. k ∷ name) ns)
map-map_path r k [] = refl
map-map_path r k (n ∷ ns) = rw (append_assoc r (k ∷ []) n, map-map_path r k ns)

extend_lem :
    (r : List ℕ) (t : Tree)
    → IsWellFormed t
    → extend r t ≡ verdict (map (λ name. r ++ name) (names t))
unfolding extend names names_below
extend_lem r (node true nil) h = rw (append-nil r)
extend_lem r (node true (cons k t ts)) (bare, (fresh, (wf, wfs))) =
    let (n, (ns, e)) = names-IsWellFormed t wf in rw e
extend_lem r (node false nil) h = ground (arith, h)
extend_lem r (node false (cons k t (cons k' t' ts))) (bare, (fresh, (wf, (fresh', (wf', wfs))))) =
    let (n, (ns, e)) = names-IsWellFormed t wf in
    let (n', (ns', e')) = names-IsWellFormed t' wf' in
    rw (e, e')
      (sym (
        verdict_two (λ name. r ++ name) (λ name. k ∷ name) (k ∷ n) (k' ∷ n') ns
          (map (λ name. k' ∷ name) ns' ++ names_below ts)))
extend_lem r (node false (cons k t nil)) (bare, (fresh, (wf, wfs))) =
    extend_lem (r ++ (k ∷ [])) t wf
    ∙ rw (map-map_path r k (names t), append-nil (map (λ name. k ∷ name) (names t)))

pub get_child-IsWellFormed :
    (c : ℕ) (ts : Children) (t : Tree) → AreWellFormed ts → get_child c ts ≡ some t → IsWellFormed t
unfolding get_child
get_child-IsWellFormed c nil t h e = ground (arith, e)
get_child-IsWellFormed c (cons k t' ts) t (fresh, (wf, wfs)) e = elim (Bool-cases (k == c)) [
  | inl same ↦
      let found : some t' ≡ some t = rw same at e in
      let eq : t' ≡ t = ap (λ o. elim o as (λ _. Tree) [ none ↦ t' | some x ↦ x ]) found in
      let wf' : IsWellFormed t = rw eq at wf in wf'
  | inr other ↦ get_child-IsWellFormed c ts t wfs (rw other at e)
]

names-cons :
    (c : ℕ) (cs : List ℕ) (b : Bool) (ts : Children)
    → AreWellFormed ts
    → matches (c ∷ cs) (names (node b ts)) ≡ matches_at c cs (get_child c ts)
unfolding names matches is_prefix
names-cons c cs true ts h = matches-names_below c cs ts h
names-cons c cs false ts h = matches-names_below c cs ts h

at_child_lem :
    (path : List ℕ) (c : ℕ) (cs : List ℕ) (ts : Children) (o : Option Tree)
    → AreWellFormed ts
    → get_child c ts ≡ o
    → ((t : Tree)
        → IsWellFormed t
        → find_from ((path ++ (c ∷ [])) ++ cs) cs t
          ≡ verdict (map (λ name. (path ++ (c ∷ [])) ++ name) (matches cs (names t))))
    → elim o as (λ _. Answer) [ none ↦ not_online | some t ↦ find_from (path ++ (c ∷ cs)) cs t ]
      ≡ verdict (map (λ name. path ++ name) (matches_at c cs o))
at_child_lem path c cs ts none h e ih = refl
at_child_lem path c cs ts (some t) h e ih = rw (sym (append_assoc path (c ∷ []) cs)) (
    ih t (get_child-IsWellFormed c ts t h e)
    ∙ ap verdict (map-map_path path c (matches cs (names t))))

-- The answer from a node at the end of a path of the query.
find_from_lem :
    (path q : List ℕ) (t : Tree)
    → IsWellFormed t
    → find_from (path ++ q) q t ≡ verdict (map (λ name. path ++ name) (matches q (names t)))
unfolding find_from
find_from_lem path [] t h = rw (append-nil path, matches-nil_lem (names t)) (extend_lem path t h)
find_from_lem path (c ∷ cs) (node b ts) (bare, wfs) = rw (names-cons c cs b ts wfs) (
    at_child_lem path c cs ts (get_child c ts) wfs refl
      (λ t wf. find_from_lem (path ++ (c ∷ [])) cs t wf))

map-same : (ns : List (List ℕ)) → map (λ name. name) ns ≡ ns
map-same [] = refl
map-same (n ∷ ns) = ap (λ l. n ∷ l) (map-same ns)

-- A query that is not empty finds the name that begins with it if there is just one; it is
-- ambiguous if there are more, and no player with that name is online if there is none.
pub find_one-names :
    (c : ℕ) (cs : List ℕ) (t : Tree)
    → AreWellFormed (children_of t)
    → find_one (c ∷ cs) t ≡ verdict (matches (c ∷ cs) (names t))
unfolding find_one find_from
find_one-names c cs (node b ts) wfs = rw (names-cons c cs b ts wfs) (
    at_child_lem [] c cs ts (get_child c ts) wfs refl (λ t wf. find_from_lem (c ∷ []) cs t wf)
    ∙ ap verdict (map-same (matches_at c cs (get_child c ts))))
