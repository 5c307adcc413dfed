-- ===== src/Names/Shape.antt =====
-- The shape of the tree under the operations of src/wildcardtree.cpp, and what a history of logins
-- and logouts leaves in it.
use zenonia.Base.{
  ℕ, ◌≡◌, refl, Bool, true, false, not, ◌&&◌, ◌||◌, Option, none, some, List, [], ◌∷◌, ◌==◌, arith,
  Bool-cases, inl, inr, ==-refl, same_bytes,
}
use zenonia.Names.{
  Tree, Children, node, nil, cons, get_child, add_child, update, erase, keep_or_erase, is_bare,
  insert, remove, remove_from, replace_child, contains, find_one,
}
use zenonia.Names.Lookup.{get_child-add_child, get_child-update, get_child-erase}
use zenonia.Names.Find.{
  IsWellFormed, AreWellFormed, children_of, names, matches, verdict, find_one-names,
  get_child-IsWellFormed,
}
use zenonia.Names.Contents.{contains-insert, contains-remove, contains_bare}

other_key : (ch k : ℕ) → (k == ch) ≡ false → (ch == k) ≡ false
other_key ch k e = ground (arith, e)

add_child-AreWellFormed :
    (ch : ℕ) (ts : Children) → AreWellFormed ts → AreWellFormed (add_child ch true ts)
unfolding add_child get_child
add_child-AreWellFormed ch nil h = (refl, ((refl, tt), tt))
add_child-AreWellFormed ch (cons k (node b kids) ts) (fresh, ((bare, wf), wfs)) =
    elim (Bool-cases (k == ch)) [
      | inl e ↦ rw e (fresh, ((marked_bare b kids, wf), wfs))
      | inr e ↦ rw e (
        rw (get_child-add_child k ch true ts, other_key ch k e) fresh,
        ((bare, wf), add_child-AreWellFormed ch ts wfs),
      )
    ]
  where
    marked_bare : (b : Bool) (kids : Children) → is_bare (node (b || true) kids) ≡ false
    marked_bare b kids = ground arith

module _ (ch : ℕ) (f : Tree → Tree)
    (keeps : (t : Tree) → AreWellFormed (children_of t) → IsWellFormed (f t)) where
  update-add_child :
      (ts : Children) → AreWellFormed ts → AreWellFormed (update ch f (add_child ch false ts))
  unfolding add_child update get_child
  update-add_child nil h =
      let start : Tree = node false nil in rw (==-refl ch) (refl, (keeps start tt, tt))
  update-add_child (cons k (node b kids) ts) (fresh, ((bare, wf), wfs)) =
      elim (Bool-cases (k == ch)) [
        | inl e ↦ rw (e, e) (fresh, (keeps (node (b || false) kids) wf, wfs))
        | inr e ↦
            rw (e, e)
              (
                rw
                    (
                      get_child-update k ch f (add_child ch false ts),
                      get_child-add_child k ch false ts,
                      other_key ch k e,
                    )
                    fresh,
                ((bare, wf), update-add_child ts wfs),
              )
      ]

is_bare-add_child :
    (ch : ℕ) (b breakp : Bool) (ts : Children) → is_bare (node b (add_child ch breakp ts)) ≡ false
unfolding add_child
is_bare-add_child ch true breakp ts = refl
is_bare-add_child ch false breakp nil = refl
is_bare-add_child ch false breakp (cons k (node b kids) ts) = ground arith

is_bare-update :
    (ch : ℕ) (b : Bool) (f : Tree → Tree) (ts : Children)
    → is_bare (node b (update ch f (add_child ch false ts))) ≡ false
unfolding add_child update
is_bare-update ch true f ts = refl
is_bare-update ch false f nil = ground arith
is_bare-update ch false f (cons k (node b kids) ts) = ground arith

insert-IsWellFormed :
    (ch : ℕ) (cs : List ℕ) (t : Tree)
    → AreWellFormed (children_of t)
    → IsWellFormed (insert ch cs t)
unfolding insert
insert-IsWellFormed ch [] (node b ts) h =
    (is_bare-add_child ch b true ts, add_child-AreWellFormed ch ts h)
insert-IsWellFormed ch (c ∷ cs) (node b ts) h = (
  is_bare-update ch b (insert c cs) ts,
  update-add_child ch (insert c cs) (λ t wf. insert-IsWellFormed c cs t wf) ts h,
)

erase-AreWellFormed : (ch : ℕ) (ts : Children) → AreWellFormed ts → AreWellFormed (erase ch ts)
unfolding erase
erase-AreWellFormed ch nil h = tt
erase-AreWellFormed ch (cons k t ts) (fresh, (wf, wfs)) = elim (Bool-cases (k == ch)) [
  | inl e ↦ rw e (erase-AreWellFormed ch ts wfs)
  | inr e ↦
      rw e
        (rw (get_child-erase k ch ts, other_key ch k e) fresh, (wf, erase-AreWellFormed ch ts wfs))
]

update-AreWellFormed :
    (ch : ℕ) (t' : Tree) (ts : Children)
    → IsWellFormed t'
    → AreWellFormed ts
    → AreWellFormed (update ch (λ _. t') ts)
unfolding update
update-AreWellFormed ch t' nil h hs = tt
update-AreWellFormed ch t' (cons k t ts) h (fresh, (wf, wfs)) = elim (Bool-cases (k == ch)) [
  | inl e ↦ rw e (fresh, (h, wfs))
  | inr e ↦ rw e (
    rw (get_child-update k ch (λ _. t') ts, other_key ch k e) fresh,
    (wf, update-AreWellFormed ch t' ts h wfs),
  )
]

keep_or_erase-AreWellFormed :
    (ch : ℕ) (t' : Tree) (ts : Children)
    → AreWellFormed (children_of t')
    → AreWellFormed ts
    → AreWellFormed (keep_or_erase ch t' ts)
unfolding keep_or_erase
keep_or_erase-AreWellFormed ch (node b kids) ts h hs = elim (Bool-cases (is_bare (node b kids))) [
  | inl bare ↦ rw bare (erase-AreWellFormed ch ts hs)
  | inr kept ↦ rw kept (update-AreWellFormed ch (node b kids) ts (kept, h) hs)
]

abbrev StaysFine : Option Tree → Type 0
StaysFine none = Unit
StaysFine (some t) = AreWellFormed (children_of t)

children-IsWellFormed : (t : Tree) → IsWellFormed t → AreWellFormed (children_of t)
children-IsWellFormed (node b ts) h = h.1

remove_from-StaysFine :
    (name : List ℕ) (t : Tree) → AreWellFormed (children_of t) → StaysFine (remove_from name t)
unfolding remove_from
remove_from-StaysFine [] (node b ts) h = h
remove_from-StaysFine (c ∷ cs) (node b ts) h =
    at_child (get_child c ts) refl (λ t wf. remove_from-StaysFine cs t wf)
  where
    replaced : (o : Option Tree) → StaysFine o → StaysFine (replace_child b c ts o)
    replaced none k = tt
    replaced (some t) k = keep_or_erase-AreWellFormed c t ts k h

    at_child :
        (o : Option Tree)
        → get_child c ts ≡ o
        → ((t : Tree) → AreWellFormed (children_of t) → StaysFine (remove_from cs t))
        → StaysFine (elim o as (λ _. Option Tree) [
          | none ↦ none
          | some t ↦ replace_child b c ts (remove_from cs t)
        ])
    at_child none e ih = tt
    at_child (some t) e ih =
        replaced (remove_from cs t)
          (ih t (children-IsWellFormed t (get_child-IsWellFormed c ts t h e)))

pub remove-AreWellFormed :
    (name : List ℕ) (t : Tree)
    → AreWellFormed (children_of t)
    → AreWellFormed (children_of (remove name t))
unfolding remove
remove-AreWellFormed name t h = kept (remove_from name t) (remove_from-StaysFine name t h)
  where
    kept :
        (o : Option Tree)
        → StaysFine o
        → AreWellFormed (children_of (elim o as (λ _. Tree) [ none ↦ t | some t' ↦ t' ]))
    kept none k = h
    kept (some t') k = k

-- `addPlayer` and `removePlayer` of src/game.cpp, as far as they touch the tree. A name has a
-- character at least.
pub data Change : Type 0 where
  login : ℕ → List ℕ → Change
  logout : List ℕ → Change

abbrev pub apply : Change → Tree → Tree
apply (login ch cs) t = insert ch cs t
apply (logout name) t = remove name t

-- The tree after a history, the latest change first.
abbrev pub replay : List Change → Tree
replay [] = node false nil
replay (c ∷ cs) = apply c (replay cs)

-- Whether a player is online, by the history alone.
abbrev pub is_online : List ℕ → List Change → Bool
is_online name [] = false
is_online name (login ch cs ∷ history) = same_bytes name (ch ∷ cs) || is_online name history
is_online name (logout name' ∷ history) = not (same_bytes name name') && is_online name history

-- After any history the tree has the names of the players that are online.
pub contains-replay :
    (name : List ℕ) (history : List Change)
    → contains name (replay history) ≡ is_online name history
contains-replay name [] = contains_bare name (node false nil) refl
contains-replay name (login ch cs ∷ history) =
    rw (contains-insert name ch cs (replay history), contains-replay name history)
contains-replay name (logout name' ∷ history) =
    rw (contains-remove name name' (replay history), contains-replay name history)

pub replay-AreWellFormed : (history : List Change) → AreWellFormed (children_of (replay history))
replay-AreWellFormed [] = tt
replay-AreWellFormed (login ch cs ∷ history) =
    children-IsWellFormed (insert ch cs (replay history))
      (insert-IsWellFormed ch cs (replay history) (replay-AreWellFormed history))
replay-AreWellFormed (logout name ∷ history) =
    remove-AreWellFormed name (replay history) (replay-AreWellFormed history)

-- After any history a query that is not empty is answered by the names that begin with it: the name
-- if there is one, that it is ambiguous if there are more, that none is online if there is none.
pub find_one-replay :
    (c : ℕ) (cs : List ℕ) (history : List Change)
    → find_one (c ∷ cs) (replay history) ≡ verdict (matches (c ∷ cs) (names (replay history)))
find_one-replay c cs history = find_one-names c cs (replay history) (replay-AreWellFormed history)
