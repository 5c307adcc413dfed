-- ===== src/Names/Online.antt =====
-- What `findOne` of src/wildcardtree.cpp says of the players that are online.
use zenonia.Base.{
  ℕ, ◌≡◌, sym, ◌∙◌, Bool, true, false, ◌&&◌, ◌||◌, List, [], ◌∷◌, arith, same_bytes,
  same_bytes_refl,
}
use zenonia.Names.{Answer, found, not_online, ambiguous, find_one}
use zenonia.Names.Find.{names, matches, verdict, is_prefix}
use zenonia.Names.Listing.{
  member, member-matches, contains-names, same_bytes-eq, IsDistinct, IsDistinct-names,
  IsDistinct-matches,
}
use zenonia.Names.Shape.{
  Change, replay, is_online, contains-replay, find_one-replay, replay-AreWellFormed,
}

-- A player who is online and whose name begins with the query.
abbrev pub answers : List ℕ → List Change → List ℕ → Bool
answers query history name = is_prefix query name && is_online name history

-- What an answer has to mean.
abbrev pub IsRight : List ℕ → List Change → Answer → Type 0
IsRight query history (found name) =
    (answers query history name ≡ true)
    × ((other : List ℕ) → answers query history other ≡ true → name ≡ other)
IsRight query history not_online = (name : List ℕ) → answers query history name ≡ false
IsRight query history ambiguous =
    (name : List ℕ) × ((other : List ℕ) × ((same_bytes other name ≡ false)
        × (answers query history name ≡ true)
        × (answers query history other ≡ true)))

member-answers :
    (query name : List ℕ) (history : List Change)
    → member name (matches query (names (replay history))) ≡ answers query history name
member-answers query name history = rw (
  member-matches name query (names (replay history)),
  sym (contains-names name (replay history) (replay-AreWellFormed history)),
  contains-replay name history,
)

verdict-IsRight :
    (query : List ℕ) (history : List Change) (ns : List (List ℕ))
    → IsDistinct ns
    → ((name : List ℕ) → member name ns ≡ answers query history name)
    → IsRight query history (verdict ns)
unfolding member
verdict-IsRight query history [] h e = λ name. sym (e name)
verdict-IsRight query history (n ∷ []) h e = (
  sym (e n) ∙ rw (same_bytes_refl n),
  λ other is_there. same_bytes-eq n other (only (same_bytes n other) (e other ∙ is_there)),
)
  where
    only : (b : Bool) → (b || false) ≡ true → b ≡ true
    only b h = ground (arith, h)
verdict-IsRight query history (n ∷ n' ∷ ns) (new, h) e = (
  n,
  (
    n',
    (
      differs (same_bytes n' n) (member n ns) new,
      sym (e n) ∙ rw (same_bytes_refl n),
      sym (e n') ∙ second (same_bytes n n') (rw (same_bytes_refl n')),
    ),
  ),
)
  where
    differs : (b c : Bool) → (b || c) ≡ false → b ≡ false
    differs b c h = ground (arith, h)

    second : (a : Bool) {b : Bool} → b ≡ true → (a || b) ≡ true
    second a h = ground (arith, h)

-- After any history of logins and logouts a query that is not empty is answered rightly: with the
-- only player online whose name begins with it, as ambiguous if there are two such players, and as
-- not online if there is none.
pub find_one-IsRight :
    (c : ℕ) (cs : List ℕ) (history : List Change)
    → IsRight (c ∷ cs) history (find_one (c ∷ cs) (replay history))
find_one-IsRight c cs history =
    let tree = replay history in
    rw (find_one-replay c cs history) (
      verdict-IsRight (c ∷ cs) history (matches (c ∷ cs) (names tree))
        (IsDistinct-matches (c ∷ cs) (names tree)
          (IsDistinct-names tree (replay-AreWellFormed history)))
        (λ name. member-answers (c ∷ cs) name history))
