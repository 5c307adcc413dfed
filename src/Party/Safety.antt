-- ===== src/Party/Safety.antt =====
-- The handlers of src/party.cpp's callers follow no pointer to a party that is deleted.
use zenonia.Base.{
  ℕ, ◌≡◌, ◌≤◌, refl, Bool, true, false, Option, none, some, ◌==◌, if◌then◌else◌, arith, Bool-cases,
  Option-cases, inl, inr,
}
use zenonia.Party.{Party, World, Env, Scripts}
use zenonia.Party.Handlers.{
  ◌>>=◌, MaybeParty, deref, get_party, led_by, invites, is_inviting, has_party, on_content, join,
  revoke, leave,
}
use zenonia.Party.Seats.{seats, belongs}
use zenonia.Party.Members.{IsValid, Alike, join_party-Agrees, put-Agrees}
use zenonia.Party.Leaving.{remove_invite-Agrees}
use zenonia.Party.Departure.{leave_party-Agrees}

-- A handler returns, and in a world that is valid.
abbrev pub Returns : (World → Type 0) → Option World → Type 0
Returns P none = ⊥
Returns P (some w) = P w

-- The content of a party that is allocated.
abbrev pub Points : World → MaybeParty → Type 0
Points w none = Unit
Points w (some (q, party)) = w.parties q ≡ some party

allocated : (w : World) (q p : ℕ) → 1 ≤ seats w q p → (party : Party) × (w.parties q ≡ some party)
unfolding seats
allocated w q p pos = elim (Option-cases (w.parties q)) [
  | inl e ↦ absurd (ground (arith, e, pos))
  | inr found ↦ found
]

pub led_by-Points : (w : World) (p : ℕ) (m : MaybeParty) → Points w m → Points w (led_by p m)
led_by-Points w p none h = tt
led_by-Points w p (some (q, party)) h = elim (Bool-cases (party.leader == p)) [
  | inl e ↦ rw e h
  | inr e ↦ rw e tt
]

module _ (w : World) (h : IsValid w) where
  pub seated : (p q : ℕ) → (w.players p).party ≡ some q → 1 ≤ seats w q p
  unfolding belongs
  seated p q e = ground (arith, h q p, e)

  pub get_party-Points : (p : ℕ) → (m : MaybeParty) × (get_party w p ≡ some m) × Points w m
  unfolding get_party deref
  get_party-Points p = elim (Option-cases (w.players p).party) [
    | inl e ↦ (none, rw e refl, tt)
    | inr (q, e) ↦
        let (party, found) = allocated w q p (seated p q e) in
        (some (q, party), rw (e, deref, found) refl, found)
  ]

  -- What follows the read of a party.
  pub after :
      (p : ℕ) (f : MaybeParty → Option World)
      → ((m : MaybeParty) → Points w m → Returns IsValid (f m))
      → Returns IsValid (get_party w p >>= f)
  after p f k = let (m, e, points) = get_party-Points p in rw e (k m points)

  pub is_inviting_total : (p x : ℕ) → (b : Bool) × (is_inviting w p x ≡ some b)
  unfolding is_inviting
  is_inviting_total p x =
      let (m, e, points) = get_party-Points p in (invites x (led_by p m), rw e refl)

  -- What follows the test of an invitation.
  pub after_inviting :
      (p x : ℕ) (f : Bool → Option World)
      → ((b : Bool) → Returns IsValid (f b))
      → Returns IsValid (is_inviting w p x >>= f)
  after_inviting p x f k = let (b, e) = is_inviting_total p x in rw e (k b)

  -- A branch that does nothing.
  pub unless :
      (b : Bool) (o : Option World)
      → (b ≡ false → Returns IsValid o)
      → Returns IsValid (if b then some w else o)
  unless true o k = h
  unless false o k = k refl

  pub alone : (p : ℕ) → has_party w p ≡ false → (w.players p).party ≡ none
  unfolding has_party
  alone p e = ground (arith, e)

  pub join-IsValid :
      (env : Env) (scripts : Scripts) (p : ℕ) (m : MaybeParty)
      → Points w m
      → IsValid (join env scripts p w m)
  join-IsValid env scripts p none points = h
  join-IsValid env scripts p (some (q, party)) points = elim (Bool-cases (has_party w p)) [
    | inl e ↦ rw (e, join) h
    | inr e ↦
        rw (e, join) (λ r x. join_party-Agrees w q party points p r x (alone p e) h env scripts)
  ]

  pub revoke-IsValid :
      (scripts : Scripts)
      → scripts.on_disband ≡ true
      → (x : ℕ) (m : MaybeParty) → Points w m
      → IsValid (revoke scripts x w m)
  revoke-IsValid scripts agreed x none points = h
  revoke-IsValid scripts agreed x (some (q, party)) points =
      λ r y. remove_invite-Agrees scripts agreed q party x w r y points h

  pub leave-IsValid :
      (env : Env) (scripts : Scripts)
      → scripts.on_disband ≡ true
      → (p : ℕ) (m : MaybeParty) → Points w m
      → IsValid (leave env scripts p w m)
  leave-IsValid env scripts agreed p none points = h
  leave-IsValid env scripts agreed p (some (q, party)) points =
      λ r x. leave_party-Agrees w q party points h env scripts p r x agreed

  pub on_content-IsValid :
      (f : Party → Party) (m : MaybeParty)
      → ((party : Party) (x : ℕ) → Alike (f party) party x)
      → Points w m
      → IsValid (on_content w f m)
  on_content-IsValid f none alike points = h
  on_content-IsValid f (some (q, party)) alike points =
      λ r x. put-Agrees w q party points (f party) r x (alike party x) (h r x)

  pub choose : (b : Bool) (v : World) → IsValid v → IsValid (if b then v else w)
  choose true v k = k
  choose false v k = h
