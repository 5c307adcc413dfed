-- ===== src/Party/Disband.antt =====
-- What `disband` of src/party.cpp leaves.
use zenonia.Base.{ℕ, ◌≡◌, refl, ◌∙◌, true, ◌&&◌, none, ◌==◌, ltb, if◌then◌else◌, arith}
use zenonia.Party.{Party, World, Scripts}
use zenonia.Party.Methods.{set_party, remove_party_invitation, for_each, free, disband}
use zenonia.Party.Counts.{count}
use zenonia.Party.Seats.{
  seat, seats, pending, belongs, invited, belongs-set_party, invited-set_party, belongs-each,
  invited-each, belongs-each_remove, invited-each_remove, parties-each, parties-set_party,
  parties-remove,
}

module _ (q : ℕ) (w : World) (x r : ℕ) where
  belongs-free : belongs (free q w) x r ≡ belongs w x r
  unfolding belongs free
  belongs-free = refl

  invited-free : invited (free q w) x r ≡ invited w x r
  unfolding invited free
  invited-free = refl

  seats-free : seats (free q w) r x ≡ (if r == q then 0 else seats w r x)
  unfolding seats free
  seats-free = ground arith

  pending-free : pending (free q w) r x ≡ (if r == q then 0 else pending w r x)
  unfolding pending free
  pending-free = ground arith

module _ (scripts : Scripts) (agreed : scripts.on_disband ≡ true) (q : ℕ) (party : Party)
    (w : World) where
  without_leader : World
  without_leader = set_party party.leader none w

  without_invitations : World
  without_invitations = for_each (λ p. remove_party_invitation p q) party.invite_list without_leader

  left : World
  left = for_each (λ p. set_party p none) party.member_list without_invitations

  disband_lem : disband scripts q party w ≡ free q left
  unfolding disband left without_invitations without_leader
  disband_lem = rw agreed

  parties-left : left.parties ≡ w.parties
  unfolding left without_invitations without_leader
  parties-left =
      parties-each (λ p. set_party p none) (parties-set_party none) party.member_list
        without_invitations
      ∙ parties-each (λ p. remove_party_invitation p q) (parties-remove q) party.invite_list
          without_leader
      ∙ parties-set_party none party.leader w

  module _ (x r : ℕ) where
    pub belongs-disband :
        belongs (disband scripts q party w) x r
        ≡ (if ltb 0 (seat party x) then 0 else belongs w x r)
    unfolding seat left without_invitations without_leader
    belongs-disband = rw disband_lem (
        ground (
          arith,
          belongs-free q left x r,
          belongs-each x r party.member_list without_invitations,
          belongs-each_remove x r q party.invite_list without_leader,
          belongs-set_party w x r party.leader none,
        ))

    pub invited-disband :
        invited (disband scripts q party w) x r
        ≡ (if (q == r) && ltb 0 (count x party.invite_list) then 0 else invited w x r)
    unfolding left without_invitations without_leader
    invited-disband = rw disband_lem (
        ground (
          arith,
          invited-free q left x r,
          invited-each x r party.member_list without_invitations,
          invited-each_remove x r q party.invite_list without_leader,
          invited-set_party w x r party.leader none,
        ))

    pub seats-disband : seats (disband scripts q party w) r x ≡ (if r == q then 0 else seats w r x)
    unfolding seats
    seats-disband = rw disband_lem (rw (seats-free q left x r) (rw parties-left refl))

    pub pending-disband :
        pending (disband scripts q party w) r x ≡ (if r == q then 0 else pending w r x)
    unfolding pending
    pending-disband = rw disband_lem (rw (pending-free q left x r) (rw parties-left refl))
