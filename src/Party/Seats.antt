-- ===== src/Party/Seats.antt =====
-- Where a player stands with a party, counted from both sides, and what each write changes.
use zenonia.Base.{
  ℕ, ◌+◌, ◌≡◌, ◌≢◌, ◌≤◌, refl, ◌∙◌, ◌&&◌, Option, none, some, List, [], ◌∷◌, ◌==◌, ltb,
  if◌then◌else◌, arith,
}
use zenonia.Party.{Party, World}
use zenonia.Party.Methods.{set_party, add_party_invitation, remove_party_invitation, put, for_each}
use zenonia.Party.Counts.{count, count-remove, count-contains}

-- From the party's side: the leader has a seat, and so has each entry of the members.
unfoldable pub seat : Party → ℕ → ℕ
seat party p = (if party.leader == p then 1 else 0) + count p party.member_list

unfoldable pub seats : World → ℕ → ℕ → ℕ
seats w q p = elim (w.parties q) [ none ↦ 0 | some party ↦ seat party p ]

unfoldable pub pending : World → ℕ → ℕ → ℕ
pending w q p = elim (w.parties q) [ none ↦ 0 | some party ↦ count p party.invite_list ]

-- From the player's side.
abbrev pub at : Option ℕ → ℕ → ℕ
at none q = 0
at (some r) q = if r == q then 1 else 0

unfoldable pub belongs : World → ℕ → ℕ → ℕ
belongs w p q = at (w.players p).party q

unfoldable pub invited : World → ℕ → ℕ → ℕ
invited w p q = count q (w.players p).invite_party_list

at_one : (o : Option ℕ) (q r : ℕ) → q ≢ r → at o q + at o r ≤ 1
at_one none q r ne = omega arith
at_one (some s) q r ne = ground arith

-- A player is in one party at most.
pub belongs_one : (w : World) (p q r : ℕ) → q ≢ r → belongs w p q + belongs w p r ≤ 1
unfolding belongs
belongs_one w p q r ne = at_one (w.players p).party q r ne

module _ (w : World) (x r : ℕ) where
  pub belongs-set_party :
      (p : ℕ) (o : Option ℕ)
      → belongs (set_party p o w) x r ≡ (if x == p then at o r else belongs w x r)
  unfolding belongs set_party
  belongs-set_party p o = ground arith

  pub invited-set_party : (p : ℕ) (o : Option ℕ) → invited (set_party p o w) x r ≡ invited w x r
  unfolding invited set_party
  invited-set_party p o = ground arith

  pub belongs-put : (q : ℕ) (party : Party) → belongs (put q party w) x r ≡ belongs w x r
  unfolding belongs put
  belongs-put q party = refl

  pub invited-put : (q : ℕ) (party : Party) → invited (put q party w) x r ≡ invited w x r
  unfolding invited put
  invited-put q party = refl

  pub belongs-remove : (p q : ℕ) → belongs (remove_party_invitation p q w) x r ≡ belongs w x r
  unfolding belongs remove_party_invitation
  belongs-remove p q = ground arith

  pub invited-remove :
      (p q : ℕ)
      → invited (remove_party_invitation p q w) x r
        ≡ (if (x == p) && (q == r) then 0 else invited w x r)
  unfolding invited remove_party_invitation
  invited-remove p q = ground (arith, count-remove r q (w.players p).invite_party_list)

  pub belongs-add : (p q : ℕ) → belongs (add_party_invitation p q w) x r ≡ belongs w x r
  unfolding belongs add_party_invitation
  belongs-add p q = ground arith

  pub invited-add :
      (p q : ℕ)
      → invited (add_party_invitation p q w) x r
        ≡ (if (x == p) && (q == r) && (0 == invited w x r) then 1 else invited w x r)
  unfolding invited add_party_invitation count
  invited-add p q = ground (arith, count-contains q (w.players p).invite_party_list)

  pub seats-set_party : (p : ℕ) (o : Option ℕ) → seats (set_party p o w) r x ≡ seats w r x
  unfolding seats set_party
  seats-set_party p o = refl

  pub pending-set_party : (p : ℕ) (o : Option ℕ) → pending (set_party p o w) r x ≡ pending w r x
  unfolding pending set_party
  pending-set_party p o = refl

  pub seats-remove : (p q : ℕ) → seats (remove_party_invitation p q w) r x ≡ seats w r x
  unfolding seats remove_party_invitation
  seats-remove p q = refl

  pub pending-remove : (p q : ℕ) → pending (remove_party_invitation p q w) r x ≡ pending w r x
  unfolding pending remove_party_invitation
  pending-remove p q = refl

  pub seats-add : (p q : ℕ) → seats (add_party_invitation p q w) r x ≡ seats w r x
  unfolding seats add_party_invitation
  seats-add p q = refl

  pub pending-add : (p q : ℕ) → pending (add_party_invitation p q w) r x ≡ pending w r x
  unfolding pending add_party_invitation
  pending-add p q = refl

  pub seats-put :
      (q : ℕ) (party : Party)
      → seats (put q party w) r x ≡ (if r == q then seat party x else seats w r x)
  unfolding seats put
  seats-put q party = ground arith

  pub pending-put :
      (q : ℕ) (party : Party)
      → pending (put q party w) r x ≡ (if r == q then count x party.invite_list else pending w r x)
  unfolding pending put
  pending-put q party = ground arith

-- The loops of `disband`.
module _ (x r : ℕ) where
  pub belongs-each :
      (ps : List ℕ) (w : World)
      → belongs (for_each (λ p. set_party p none) ps w) x r
        ≡ (if ltb 0 (count x ps) then 0 else belongs w x r)
  unfolding for_each count
  belongs-each [] w = refl
  belongs-each (p ∷ ps) w =
      ground (arith, belongs-each ps (set_party p none w), belongs-set_party w x r p none)

  pub invited-each :
      (ps : List ℕ) (w : World)
      → invited (for_each (λ p. set_party p none) ps w) x r ≡ invited w x r
  unfolding for_each
  invited-each [] w = refl
  invited-each (p ∷ ps) w =
      ground (arith, invited-each ps (set_party p none w), invited-set_party w x r p none)

  pub belongs-each_remove :
      (q : ℕ) (ps : List ℕ) (w : World)
      → belongs (for_each (λ p. remove_party_invitation p q) ps w) x r ≡ belongs w x r
  unfolding for_each
  belongs-each_remove q [] w = refl
  belongs-each_remove q (p ∷ ps) w =
      ground
        (arith, belongs-each_remove q ps (remove_party_invitation p q w), belongs-remove w x r p q)

  pub invited-each_remove :
      (q : ℕ) (ps : List ℕ) (w : World)
      → invited (for_each (λ p. remove_party_invitation p q) ps w) x r
        ≡ (if (q == r) && ltb 0 (count x ps) then 0 else invited w x r)
  unfolding for_each count
  invited-each_remove q [] w = ground arith
  invited-each_remove q (p ∷ ps) w =
      ground
        (arith, invited-each_remove q ps (remove_party_invitation p q w), invited-remove w x r p q)

pub parties-each :
    (f : ℕ → World → World) (keep : (p : ℕ) (w : World) → (f p w).parties ≡ w.parties) (ps : List ℕ)
    (w : World)
    → (for_each f ps w).parties ≡ w.parties
unfolding for_each
parties-each f keep [] w = refl
parties-each f keep (p ∷ ps) w = parties-each f keep ps (f p w) ∙ keep p w

pub parties-set_party : (o : Option ℕ) (p : ℕ) (w : World) → (set_party p o w).parties ≡ w.parties
unfolding set_party
parties-set_party o p w = refl

pub parties-remove : (q p : ℕ) (w : World) → (remove_party_invitation p q w).parties ≡ w.parties
unfolding remove_party_invitation
parties-remove q p w = refl
