-- ===== src/Party/Members.antt =====
-- That each method of src/party.cpp keeps the two sides of a party in agreement.
use zenonia.Base.{
  ℕ, ◌+◌, ◌≡◌, ◌≤◌, refl, false, Option, none, some, List, [], ◌∷◌, ◌++◌, ◌==◌, if◌then◌else◌,
  arith,
}
use zenonia.Party.{
  Party, World, Env, Scripts, same_party, erase, update_shared_experience, clear_player_points,
  is_player_invited,
}
use zenonia.Party.Methods.{
  set_party, put, pass_party_leadership, succeed, join_party, invite_player,
  remove_party_invitation,
}
use zenonia.Party.Counts.{count, count-append_one, count-erase, count-contains}
use zenonia.Party.Seats
use zenonia.Party.Seats.{seat, seats, pending, belongs, invited, at}

-- A player has one seat with a party or none, and the player knows of it; the same holds for
-- invitations, and nobody is invited by their own party.
abbrev pub Agrees : World → ℕ → ℕ → Type 0
Agrees w q p =
    (seats w q p ≡ belongs w p q)
    × (pending w q p ≡ invited w p q)
    × (pending w q p + belongs w p q ≤ 1)

abbrev pub IsValid : World → Type 0
IsValid w = (q p : ℕ) → Agrees w q p

-- The lists of two contents are the same for a player.
abbrev pub Alike : Party → Party → ℕ → Type 0
Alike a b p = (seat a p ≡ seat b p) × (count p a.invite_list ≡ count p b.invite_list)

pub update_shared_experience-Alike :
    (env : Env) (party : Party) (p : ℕ) → Alike (update_shared_experience env party) party p
unfolding update_shared_experience seat
update_shared_experience-Alike env party p = ground arith

pub clear_player_points-Alike :
    (env : Env) (party : Party) (x p : ℕ) → Alike (clear_player_points env party x) party p
unfolding clear_player_points update_shared_experience seat
clear_player_points-Alike env party x p = ground arith

pub same_party-at : (o : Option ℕ) (q : ℕ) → at o q ≡ (if same_party o q then 1 else 0)
same_party-at none q = refl
same_party-at (some r) q = refl

pub belongs_lem : (w : World) (p q : ℕ) → belongs w p q ≡ at (w.players p).party q
unfolding belongs
belongs_lem w p q = refl

-- A player who is in no party.
pub belongs-none : (w : World) (p q : ℕ) → (w.players p).party ≡ none → belongs w p q ≡ 0
unfolding belongs
belongs-none w p q alone = rw alone

module _ (w : World) (q : ℕ) (party : Party) (allocated : w.parties q ≡ some party) where
  pub seats_lem : (p : ℕ) → seats w q p ≡ seat party p
  unfolding seats
  seats_lem p = rw (allocated, seats)

  pub pending_lem : (p : ℕ) → pending w q p ≡ count p party.invite_list
  unfolding pending
  pending_lem p = rw (allocated, pending)

  -- The party's content is replaced by one with the same lists.
  pub put-Agrees :
      (party' : Party) (r x : ℕ) → Alike party' party x → Agrees w r x → Agrees (put q party' w) r x
  put-Agrees party' r x alike h = ground (
    arith,
    Seats.seats-put w x r q party',
    Seats.pending-put w x r q party',
    Seats.belongs-put w x r q party',
    Seats.invited-put w x r q party',
    seats_lem x,
    pending_lem x,
  )

  pass_seat :
      (p x : ℕ)
      → (party.leader == p) ≡ false
      → 1 ≤ seat party p
      → seat (record party { leader = p; member_list = party.leader ∷ erase p party.member_list }) x
        ≡ seat party x
  unfolding seat count
  pass_seat p x other h = ground (arith, count-erase x p party.member_list)

  pub pass_party_leadership-Alike :
      (env : Env) (p x : ℕ) → Agrees w q p → Alike (pass_party_leadership env w q party p).1 party x
  unfolding pass_party_leadership
  pass_party_leadership-Alike env p x h = ground (
    arith,
    same_party-at (w.players p).party q,
    belongs_lem w p q,
    seats_lem p,
    pass_seat p x,
    update_shared_experience-Alike env
        (record party { leader = p; member_list = party.leader ∷ erase p party.member_list }) x,
  )

  pub succeed-Alike :
      (env : Env) (ms : List ℕ) (x : ℕ) → IsValid w → Alike (succeed env w q party ms).1 party x
  unfolding succeed
  succeed-Alike env [] x h = (refl, refl)
  succeed-Alike env (m ∷ ms) x h = ground (arith, pass_party_leadership-Alike env m x (h q m))

  module _ (p r x : ℕ) (alone : (w.players p).party ≡ none) (h : IsValid w) where
    -- The player takes a seat and loses the invitation.
    pub join_party-Agrees :
        (env : Env) (scripts : Scripts) → Agrees (join_party env scripts q party p w).1 r x
    unfolding join_party seat
    join_party-Agrees env scripts =
        let party1 = record party {
          invite_list = erase p party.invite_list;
          member_list = party.member_list ++ (p ∷ []);
        } in
        let party2 = update_shared_experience env party1 in
        let w1 = set_party p (some q) w in
        let w2 = remove_party_invitation p q w1 in
        ground (
          arith,
          Seats.seats-put w2 x r q party2,
          Seats.pending-put w2 x r q party2,
          Seats.belongs-put w2 x r q party2,
          Seats.invited-put w2 x r q party2,
          Seats.seats-remove w1 x r p q,
          Seats.pending-remove w1 x r p q,
          Seats.belongs-remove w1 x r p q,
          Seats.invited-remove w1 x r p q,
          Seats.seats-set_party w x r p (some q),
          Seats.pending-set_party w x r p (some q),
          Seats.belongs-set_party w x r p (some q),
          Seats.invited-set_party w x r p (some q),
          update_shared_experience-Alike env party1 x,
          count-append_one x p party.member_list,
          count-erase x p party.invite_list,
          count-contains p party.invite_list,
          seats_lem x,
          pending_lem x,
          belongs-none w p r alone,
          h r x,
        )

    pub invite_player-Agrees : Agrees (invite_player q party p w).1 r x
    unfolding invite_player is_player_invited seat
    invite_player-Agrees =
        let party1 = record party { invite_list = party.invite_list ++ (p ∷ []) } in
        let w1 = put q party1 w in
        ground (
          arith,
          Seats.seats-put w x r q party1,
          Seats.pending-put w x r q party1,
          Seats.belongs-put w x r q party1,
          Seats.invited-put w x r q party1,
          Seats.seats-add w1 x r p q,
          Seats.pending-add w1 x r p q,
          Seats.belongs-add w1 x r p q,
          Seats.invited-add w1 x r p q,
          count-append_one x p party.invite_list,
          count-contains p party.invite_list,
          seats_lem x,
          pending_lem x,
          pending_lem p,
          belongs-none w p r alone,
          h r x,
          h q p,
        )
