-- ===== src/Party/Leaving.antt =====
-- That the methods of src/party.cpp by which a player goes keep the two sides of a party in agreement.
use zenonia.Base.{ℕ, ◌+◌, ◌≡◌, ◌≢◌, ◌≤◌, refl, Bool, true, false, some, if◌then◌else◌, arith}
use zenonia.Party.{Party, World, Scripts, erase, empty}
use zenonia.Party.Methods.{put, remove_invite, disband, remove_party_invitation}
use zenonia.Party.Counts.{count, count-erase, count-contains}
use zenonia.Party.Seats
use zenonia.Party.Seats.{seat, seats, pending, belongs, invited, at, belongs_one}
use zenonia.Party.Disband
use zenonia.Party.Members.{Agrees, IsValid, seats_lem, pending_lem}

module _ (scripts : Scripts) (agreed : scripts.on_disband ≡ true) where
  -- The end of a method: the content is written back, or the party is dissolved.
  pub close-Agrees :
      (gone : Bool) (q : ℕ) (party : Party) (w : World) (r x : ℕ)
      → (q ≢ r → 1 ≤ seat party x → belongs w x r ≡ 0)
      → (q ≢ r → Agrees w r x)
      → (gone ≡ false
          → (seat party x ≡ belongs w x q) × (seat party x + count x party.invite_list ≤ 1))
      → belongs w x q ≤ seat party x
      → count x party.invite_list ≡ invited w x q
      → Agrees (if gone then disband scripts q party w else put q party w) r x
  close-Agrees true q party w r x alone others kept within list = ground (
    arith,
    Disband.seats-disband scripts agreed q party w x r,
    Disband.pending-disband scripts agreed q party w x r,
    Disband.belongs-disband scripts agreed q party w x r,
    Disband.invited-disband scripts agreed q party w x r,
  )
  close-Agrees false q party w r x alone others kept within list = ground (
    arith,
    Seats.seats-put w x r q party,
    Seats.pending-put w x r q party,
    Seats.belongs-put w x r q party,
    Seats.invited-put w x r q party,
    kept refl,
  )

  -- An invitation is taken back, and the player learns of it.
  pub remove_invite-Agrees :
      (q : ℕ) (party : Party) (p : ℕ) (w : World) (r x : ℕ)
      → w.parties q ≡ some party
      → IsValid w
      → Agrees (remove_invite scripts q party p true w).1 r x
  unfolding remove_invite seat
  remove_invite-Agrees q party p w r x allocated h =
      let party1 = record party { invite_list = erase p party.invite_list } in
      let w1 = remove_party_invitation p q w in
      ground (
        arith,
        close-Agrees (empty party1) q party1 w1 r x,
        count-contains p party.invite_list,
        count-erase x p party.invite_list,
        Seats.seats-remove w x r p q,
        Seats.pending-remove w x r p q,
        Seats.belongs-remove w x r p q,
        Seats.invited-remove w x r p q,
        Seats.belongs-remove w x q p q,
        Seats.invited-remove w x q p q,
        seats_lem w q party allocated x,
        pending_lem w q party allocated x,
        belongs_one w x q r,
        h r x,
        h q x,
      )
