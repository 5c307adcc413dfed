-- ===== src/Party/Departure.antt =====
-- That a player who leaves gives up the seat, and the leadership: `leaveParty` of src/party.cpp.
use zenonia.Base.{
  ℕ, ◌≡◌, ◌≤◌, refl, Bool, true, false, not, ◌&&◌, ◌||◌, none, some, List, [], ◌∷◌, ◌==◌,
  if◌then◌else◌, arith, Bool-cases, inl, inr, ◌⊎◌,
}
use zenonia.Party.{
  Party, World, Env, Scripts, same_party, is_empty, erase, update_shared_experience,
  clear_player_points, empty,
}
use zenonia.Party.Methods.{set_party, put, pass_party_leadership, succeed, leave_party, disband}
use zenonia.Party.Counts.{count, count-erase}
use zenonia.Party.Seats
use zenonia.Party.Seats.{seat, seats, pending, belongs, invited, at, belongs_one}
use zenonia.Party.Disband
use zenonia.Party.Members.{
  Agrees, IsValid, Alike, update_shared_experience-Alike, clear_player_points-Alike, same_party-at,
  belongs_lem, seats_lem, pending_lem, succeed-Alike,
}
use zenonia.Party.Leaving.{close-Agrees}

-- A leader who goes has passed the leadership on, or the party is without one.
abbrev Succeeded : ℕ → Bool × Party → Type 0
Succeeded p (missing, party) = (missing ≡ true) ⊎ ((party.leader == p) ≡ false)

module _ (w : World) (q : ℕ) (party : Party) (allocated : w.parties q ≡ some party)
    (h : IsValid w) where
  -- A member is no leader, and knows of the party.
  member_lem :
      (m : ℕ)
      → 1 ≤ count m party.member_list
      → ((party.leader == m) ≡ false) × (same_party (w.players m).party q ≡ true)
  unfolding seat
  member_lem m pos = ground (
    arith,
    h q m,
    seats_lem w q party allocated m,
    belongs_lem w m q,
    same_party-at (w.players m).party q,
  )

  heir_lem :
      (env : Env) (m : ℕ)
      → 1 ≤ count m party.member_list
      → (pass_party_leadership env w q party m).1.leader ≡ m
  unfolding pass_party_leadership update_shared_experience
  heir_lem env m pos = ground (arith, member_lem m pos)

  succeed-Succeeded :
      (env : Env) (p : ℕ) (ms : List ℕ)
      → party.member_list ≡ ms
      → (party.leader == p) ≡ true
      → Succeeded p (succeed env w q party ms)
  unfolding succeed count
  succeed-Succeeded env p [] e lead = inl refl
  succeed-Succeeded env p (m ∷ ms) e lead =
      let pos : 1 ≤ count m party.member_list = rw e (ground arith) in
      elim (Bool-cases (is_empty ms && is_empty party.invite_list)) [
        | inl last ↦ rw last (inl refl)
        | inr more ↦ rw more (inr (ground (arith, heir_lem env m pos, member_lem m pos)))
      ]

  abbrev going : Env → ℕ → Bool × Party
  going env p =
      if party.leader == p then succeed env w q party party.member_list else (false, party)

  going-Succeeded : (env : Env) (p : ℕ) → Succeeded p (going env p)
  going-Succeeded env p = elim (Bool-cases (party.leader == p)) [
    | inl e ↦ rw e (succeed-Succeeded env p party.member_list refl e)
    | inr e ↦ rw e (inr e)
  ]

  going-Alike : (env : Env) (p x : ℕ) → Alike (going env p).1 party x
  going-Alike env p x = elim (Bool-cases (party.leader == p)) [
    | inl e ↦ rw e (succeed-Alike w q party allocated env party.member_list x h)
    | inr e ↦ rw e (refl, refl)
  ]

  abbrev rest : Env → ℕ → Party
  rest env p =
      let party1 = (going env p).1 in
      let party2 = record party1 { member_list = erase p party1.member_list } in
      clear_player_points env (update_shared_experience env party2) p

  -- The others keep their seats, and the player has none unless the party is without a leader.
  seat-rest : (env : Env) (p x : ℕ) → (x == p) ≡ false → seat (rest env p) x ≡ seat party x
  unfolding seat
  seat-rest env p x other =
      let party1 = (going env p).1 in
      let party2 = record party1 { member_list = erase p party1.member_list } in
      ground (
        arith,
        going-Alike env p x,
        count-erase x p party1.member_list,
        update_shared_experience-Alike env party2 x,
        clear_player_points-Alike env (update_shared_experience env party2) p x,
      )

  seat-rest_self :
      (env : Env) (p : ℕ) → 1 ≤ seat party p → (going env p).0 ≡ false → seat (rest env p) p ≡ 0
  unfolding seat
  seat-rest_self env p pos passed =
      let party1 = (going env p).1 in
      let party2 = record party1 { member_list = erase p party1.member_list } in
      ground (
        arith,
        going-Succeeded env p,
        going-Alike env p p,
        count-erase p p party1.member_list,
        seats_lem w q party allocated p,
        h q p,
        update_shared_experience-Alike env party2 p,
        clear_player_points-Alike env (update_shared_experience env party2) p p,
      )

  rest_invites :
      (env : Env) (p x : ℕ) → count x (rest env p).invite_list ≡ count x party.invite_list
  rest_invites env p x =
      let party1 = (going env p).1 in
      let party2 = record party1 { member_list = erase p party1.member_list } in
      ground (
        arith,
        going-Alike env p x,
        update_shared_experience-Alike env party2 x,
        clear_player_points-Alike env (update_shared_experience env party2) p x,
      )

  seat_left :
      (missing : Bool) (party3 : Party) (p x : ℕ)
      → ((x == p) ≡ false → seat party3 x ≡ seat party x)
      → (missing ≡ false → seat party3 p ≡ 0)
      → missing ≡ false
      → seat party3 x ≡ (if x == p then 0 else seat party x)
  seat_left missing party3 p x others own e = ground (arith, others, own e)

  leave_closes :
      (scripts : Scripts) (missing : Bool) (party3 : Party) (p r x : ℕ)
      → scripts.on_disband ≡ true
      → 1 ≤ seat party p
      → ((x == p) ≡ false → seat party3 x ≡ seat party x)
      → (missing ≡ false → seat party3 p ≡ 0)
      → count x party3.invite_list ≡ count x party.invite_list
      → Agrees
          (if missing || empty party3
            then disband scripts q party3 (set_party p none w)
            else put q party3 (set_party p none w))
          r
          x
  leave_closes scripts missing party3 p r x agreed sits others own list =
      let w1 = set_party p none w in
      close-Agrees scripts agreed (missing || empty party3) q party3 w1 r x
        (λ ne pos. ground (
          arith,
          others,
          ne,
          pos,
          belongs_one w x q r ne,
          Seats.belongs-set_party w x r p none,
          seats_lem w q party allocated x,
          h q x,
          h r x,
        ))
        (λ ne. ground (
          arith,
          h r x,
          h q x,
          ne,
          belongs_one w x q r ne,
          seats_lem w q party allocated x,
          Seats.seats-set_party w x r p none,
          Seats.pending-set_party w x r p none,
          Seats.belongs-set_party w x r p none,
          Seats.invited-set_party w x r p none,
        ))
        (λ e. ground (
          arith,
          e,
          seat_left missing party3 p x others own,
          Seats.belongs-set_party w x q p none,
          list,
          h q x,
          seats_lem w q party allocated x,
          pending_lem w q party allocated x,
        ))
        (ground (
          arith,
          others,
          Seats.belongs-set_party w x q p none,
          h q x,
          seats_lem w q party allocated x,
        ))
        (ground (
          arith,
          list,
          h q x,
          pending_lem w q party allocated x,
          Seats.invited-set_party w x q p none,
        ))

  in_party :
      (p : ℕ)
      → (not (same_party (w.players p).party q) && not (party.leader == p)) ≡ false
      → 1 ≤ seat party p
  unfolding seat
  in_party p e = ground (
    arith,
    h q p,
    seats_lem w q party allocated p,
    same_party-at (w.players p).party q,
    belongs_lem w p q,
  )

  pub leave_party-Agrees :
      (env : Env) (scripts : Scripts) (p r x : ℕ)
      → scripts.on_disband ≡ true
      → Agrees (leave_party env scripts q party p w).1 r x
  unfolding leave_party
  leave_party-Agrees env scripts p r x agreed =
      elim (Bool-cases (not (same_party (w.players p).party q) && not (party.leader == p))) [
        | inl e ↦ rw e (h r x)
        | inr e ↦ rw e (elim (Bool-cases scripts.on_leave) [
          | inl allowed ↦ rw allowed (
              let sits = in_party p e in
              leave_closes scripts (going env p).0 (rest env p) p r x agreed sits
                (seat-rest env p x) (seat-rest_self env p sits) (rest_invites env p x))
          | inr refused ↦ rw refused (h r x)
        ])
      ]

  closes_out :
      (scripts : Scripts) (gone : Bool) (party3 : Party) (p r : ℕ)
      → scripts.on_disband ≡ true
      → let v =
          if gone
          then disband scripts q party3 (set_party p none w)
          else put q party3 (set_party p none w) in
        (belongs v p r ≡ 0) × (invited v p r ≤ invited w p r)
  closes_out scripts gone party3 p r agreed =
      let w1 = set_party p none w in
      ground (
        arith,
        Disband.belongs-disband scripts agreed q party3 w1 p r,
        Disband.invited-disband scripts agreed q party3 w1 p r,
        Seats.belongs-put w1 p r q party3,
        Seats.invited-put w1 p r q party3,
        Seats.belongs-set_party w p r p none,
        Seats.invited-set_party w p r p none,
      )

  -- A member who may leave is in no party, and has no new invitation.
  pub leave_party_out :
      (env : Env) (scripts : Scripts) (p r : ℕ)
      → scripts.on_disband ≡ true
      → scripts.on_leave ≡ true
      → same_party (w.players p).party q ≡ true
      → (belongs (leave_party env scripts q party p w).1 p r ≡ 0)
        × (invited (leave_party env scripts q party p w).1 p r ≤ invited w p r)
  unfolding leave_party
  leave_party_out env scripts p r agreed allowed member = rw member (
      rw allowed
        (closes_out scripts ((going env p).0 || empty (rest env p)) (rest env p) p r agreed))
