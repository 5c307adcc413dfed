-- ===== src/Party/Removal.antt =====
-- `clearPartyInvitations` and the end of a player's session, in src/player.cpp.
use zenonia.Base.{
  update, ℕ, ◌+◌, ◌≡◌, ◌≤◌, refl, true, false, Option, none, some, List, [], ◌∷◌, ◌==◌, ==-refl,
  if◌then◌else◌, arith, Option-cases, inl, inr,
}
use zenonia.Party.{Party, World, Env, Scripts, contains, erase, empty, same_party}
use zenonia.Party.Methods.{put, disband, remove_invite, leave_party}
use zenonia.Party.Handlers.{
  ◌>>=◌, deref, MaybeParty, get_party, remove_invites, clear_party_invitations, on_remove_creature,
  leave,
}
use zenonia.Party.Counts.{count, count-contains, count-erase}
use zenonia.Party.Seats
use zenonia.Party.Seats.{seat, seats, pending, belongs, invited, at, belongs_one}
use zenonia.Party.Disband
use zenonia.Party.Members.{IsValid, seats_lem, pending_lem, belongs-none}
use zenonia.Party.Departure.{leave_party_out}
use zenonia.Party.Inviting.{no_party}
use zenonia.Party.Safety.{Returns, Points, get_party-Points, leave-IsValid}

-- The loop has the parties `qs` of player `p` ahead of it, and the player still lists them all.
abbrev Pending : ℕ → List ℕ → World → ℕ → ℕ → Type 0
Pending p qs w r x =
    (seats w r x ≡ belongs w x r)
    × (pending w r x ≡ (if x == p then count r qs else invited w x r))
    × (pending w r x + belongs w x r ≤ 1)

abbrev AllPending : ℕ → List ℕ → World → Type 0
AllPending p qs w = (r x : ℕ) → Pending p qs w r x

module _ (scripts : Scripts) (agreed : scripts.on_disband ≡ true) (p q : ℕ) (party : Party)
    (w : World) where
  abbrev without : Party
  without = record party { invite_list = erase p party.invite_list }

  abbrev closed : World
  closed = if empty without then disband scripts q without w else put q without w

  closed-Pending :
      (qs : List ℕ) (r x : ℕ)
      → w.parties q ≡ some party
      → AllPending p (q ∷ qs) w
      → Pending p qs closed r x
  unfolding count seat
  closed-Pending qs r x allocated h = ground (
    arith,
    Disband.seats-disband scripts agreed q without w x r,
    Disband.pending-disband scripts agreed q without w x r,
    Disband.belongs-disband scripts agreed q without w x r,
    Disband.invited-disband scripts agreed q without w x r,
    Seats.seats-put w x r q without,
    Seats.pending-put w x r q without,
    Seats.belongs-put w x r q without,
    Seats.invited-put w x r q without,
    count-erase x p party.invite_list,
    seats_lem w q party allocated x,
    pending_lem w q party allocated x,
    belongs_one w x q r,
    h r x,
    h q x,
  )

  -- A party that the player lists is allocated and invites the player.
  listed :
      (qs : List ℕ)
      → AllPending p (q ∷ qs) w
      → w.parties q ≡ some party
      → contains p party.invite_list ≡ true
  unfolding count
  listed qs h allocated =
      ground (arith, h q p, pending_lem w q party allocated p, count-contains p party.invite_list)

  remove_invite_lem :
      (qs : List ℕ)
      → AllPending p (q ∷ qs) w
      → w.parties q ≡ some party
      → (remove_invite scripts q party p false w).1 ≡ closed
  unfolding remove_invite
  remove_invite_lem qs h allocated = rw (listed qs h allocated) refl

pending_allocated :
    (w : World) (p q : ℕ) (qs : List ℕ)
    → AllPending p (q ∷ qs) w
    → (party : Party) × (w.parties q ≡ some party)
unfolding pending count
pending_allocated w p q qs h = elim (Option-cases (w.parties q)) [
  | inl e ↦ absurd (ground (arith, e, h q p))
  | inr found ↦ found
]

remove_invites_cons :
    (scripts : Scripts) (p q : ℕ) (qs : List ℕ) (w : World) (party : Party)
    → w.parties q ≡ some party
    → remove_invites scripts p (q ∷ qs) w
      ≡ remove_invites scripts p qs (remove_invite scripts q party p false w).1
unfolding remove_invites
remove_invites_cons scripts p q qs w party e = rw (e, remove_invites) refl

remove_invites-Returns :
    (scripts : Scripts)
    → scripts.on_disband ≡ true
    → (p : ℕ) (qs : List ℕ) (w : World) → AllPending p qs w
    → Returns (AllPending p []) (remove_invites scripts p qs w)
unfolding remove_invites
remove_invites-Returns scripts agreed p [] w h = h
remove_invites-Returns scripts agreed p (q ∷ qs) w h =
    let (party, e) = pending_allocated w p q qs h in
    rw (remove_invites_cons scripts p q qs w party e) (
      rw (remove_invite_lem scripts agreed p q party w qs h e) (
        remove_invites-Returns scripts agreed p qs (closed scripts agreed p q party w)
          (λ r x. closed-Pending scripts agreed p q party w qs r x e h)))

cleared : ℕ → World → World
cleared p w = record w {
  players = update p (record (w.players p) { invite_party_list = [] }) w.players;
}

cleared-IsValid : (p : ℕ) (w : World) → AllPending p [] w → IsValid (cleared p w)
unfolding cleared seats pending belongs invited count
cleared-IsValid p w h r x = ground (arith, h r x)

start : (p : ℕ) (w : World) → IsValid w → AllPending p (w.players p).invite_party_list w
unfolding invited
start p w h r x = ground (arith, h r x)

bind-Returns :
    (P Q : World → Type 0) (o : Option World) (f : World → Option World)
    → Returns P o
    → ((w : World) → P w → Returns Q (f w))
    → Returns Q (o >>= f)
bind-Returns P Q none f h k = h
bind-Returns P Q (some w) f h k = k w h

-- Nobody invites the player.
abbrev Uninvited : ℕ → World → Type 0
Uninvited p w = (q : ℕ) → invited w p q ≡ 0

cleared-Uninvited : (p : ℕ) (w : World) → Uninvited p (cleared p w)
unfolding cleared invited count
cleared-Uninvited p w q = rw (==-refl p) refl

clear_party_invitations-Returns :
    (scripts : Scripts)
    → scripts.on_disband ≡ true
    → (p : ℕ) (w : World) → IsValid w
    → Returns (λ v. IsValid v × Uninvited p v) (clear_party_invitations scripts p w)
unfolding clear_party_invitations cleared
clear_party_invitations-Returns scripts agreed p w h =
    bind-Returns (AllPending p []) (λ v. IsValid v × Uninvited p v)
      (remove_invites scripts p (w.players p).invite_party_list w) _
      (remove_invites-Returns scripts agreed p (w.players p).invite_party_list w (start p w h))
      (λ v k. (cleared-IsValid p v k, cleared-Uninvited p v))

-- No party has the player as leader, member or invited player.
abbrev pub Gone : ℕ → World → Type 0
Gone p w = (q : ℕ) → (seats w q p ≡ 0) × (pending w q p ≡ 0)

read_member :
    (w : World) (p r : ℕ) (party : Party)
    → get_party w p ≡ some (some (r, party))
    → same_party (w.players p).party r ≡ true
unfolding get_party deref
read_member w p r party e = ground (arith, e)

out-Gone :
    (p : ℕ) (v : World)
    → IsValid v
    → ((q : ℕ) → (belongs v p q ≡ 0) × (invited v p q ≡ 0))
    → Gone p v
out-Gone p v h out q = ground (arith, h q p, out q)

leave-Gone :
    (env : Env) (scripts : Scripts) (p : ℕ) (w : World) (m : MaybeParty)
    → scripts.on_leave ≡ true
    → scripts.on_disband ≡ true
    → get_party w p ≡ some m
    → IsValid w
    → Uninvited p w
    → Points w m
    → Gone p (leave env scripts p w m)
leave-Gone env scripts p w none allowed agreed read h un points =
    out-Gone p w h (λ q. (belongs-none w p q (no_party w h p none read refl), un q))
leave-Gone env scripts p w (some (r, party)) allowed agreed read h un points =
    out-Gone p (leave_party env scripts r party p w).1
      (leave-IsValid w h env scripts agreed p (some (r, party)) points)
      (λ q. ground (
        arith,
        un q,
        leave_party_out w r party points h env scripts p q agreed allowed
            (read_member w p r party read),
      ))

pub on_remove_creature-Returns :
    (env : Env) (scripts : Scripts) (p : ℕ) (w : World)
    → scripts.on_disband ≡ true
    → IsValid w
    → Returns
        (λ v. IsValid v × (scripts.on_leave ≡ true → Gone p v))
        (on_remove_creature env scripts p w)
unfolding on_remove_creature
on_remove_creature-Returns env scripts p w agreed h =
    bind-Returns (λ v. IsValid v × Uninvited p v) _ (clear_party_invitations scripts p w) _
      (clear_party_invitations-Returns scripts agreed p w h)
      (λ v k.
        let (m, e, points) = get_party-Points v k.0 p in
        rw e (
          leave-IsValid v k.0 env scripts agreed p m points,
          λ allowed. leave-Gone env scripts p v m allowed agreed e k.0 k.1 points,
        ))
