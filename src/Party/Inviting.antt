-- ===== src/Party/Inviting.antt =====
-- The handler of src/game.cpp that invites, and so founds parties, and the one of src/player.cpp for healing.
use zenonia.Base.{
  ℕ, ◌≡◌, refl, Bool, false, not, ◌||◌, none, some, ◌==◌, ==-refl, arith, Bool-cases, inl, inr,
}
use zenonia.Party.{World, Env, update_player_ticks}
use zenonia.Party.Methods.{put, new_party, founded_by, set_party}
use zenonia.Party.Handlers.{
  Game, MaybeParty, deref, get_party, has_party, invite_to, player_invite_to_party,
  on_target_creature_gain_health, Target, is_partner?, healed_partner,
}
use zenonia.Party.Counts.{count}
use zenonia.Party.Seats
use zenonia.Party.Seats.{seat, seats, pending, belongs, invited, at}
use zenonia.Party.Members.{IsValid, invite_player-Agrees, belongs-none}
use zenonia.Party.Safety.{
  Returns, Points, after, after_inviting, unless, get_party-Points, on_content-IsValid, alone,
}
use zenonia.Party.Handling.{update_player_ticks-Alike}

or_false : (a : Bool) {b : Bool} → (a || b) ≡ false → b ≡ false
or_false a e = ground (arith, e)

module _ (w : World) (h : IsValid w) where
  pub on_target_creature_gain_health-Returns :
      (env : Env) (target : Target) (p points : ℕ)
      → Returns IsValid (on_target_creature_gain_health env target p points w)
  unfolding on_target_creature_gain_health
  on_target_creature_gain_health-Returns env target p points =
      elim (Bool-cases (is_partner? w p (healed_partner w p target))) [
        | inl e ↦ rw e (
            after w h p _ λ m found.
              on_content-IsValid w h (λ c. update_player_ticks env c p points) m
                (update_player_ticks-Alike env p points) found)
        | inr e ↦ rw e h
      ]

  module _ (fresh p : ℕ) (new : w.parties fresh ≡ none) (single : (w.players p).party ≡ none) where
    founded : World
    founded = new_party fresh p w

    unallocated : (x : ℕ) → (seats w fresh x ≡ 0) × (pending w fresh x ≡ 0)
    unfolding seats pending
    unallocated x = (rw (new, seats) refl, rw (new, pending) refl)

    founded-Points : founded.parties fresh ≡ some (founded_by p)
    unfolding founded new_party set_party put
    founded-Points = rw (==-refl fresh) refl

    founded-IsValid : IsValid founded
    unfolding founded new_party founded_by seat count
    founded-IsValid r x =
        let w1 = put fresh (founded_by p) w in
        ground (
          arith,
          Seats.seats-set_party w1 x r p (some fresh),
          Seats.pending-set_party w1 x r p (some fresh),
          Seats.belongs-set_party w1 x r p (some fresh),
          Seats.invited-set_party w1 x r p (some fresh),
          Seats.seats-put w x r fresh (founded_by p),
          Seats.pending-put w x r fresh (founded_by p),
          Seats.belongs-put w x r fresh (founded_by p),
          Seats.invited-put w x r fresh (founded_by p),
          unallocated x,
          belongs-none w p r single,
          h r x,
          h fresh x,
        )

    founded_alone :
        (x : ℕ) → (p == x) ≡ false → (w.players x).party ≡ none → (founded.players x).party ≡ none
    unfolding founded new_party set_party put
    founded_alone x other e = ground (arith, other, e)

    invite_new-IsValid :
        (x : ℕ)
        → (p == x) ≡ false
        → (w.players x).party ≡ none
        → IsValid (invite_to w fresh p x none)
    invite_new-IsValid x other e =
        unfold founded in
        λ r y.
          invite_player-Agrees founded fresh (founded_by p) founded-Points x r y
            (founded_alone x other e) founded-IsValid

  pub invite_to-IsValid :
      (fresh p x : ℕ) (m : MaybeParty)
      → w.parties fresh ≡ none
      → (p == x) ≡ false
      → (w.players x).party ≡ none
      → (m ≡ none → (w.players p).party ≡ none)
      → Points w m
      → IsValid (invite_to w fresh p x m)
  invite_to-IsValid fresh p x none new other e single points =
      invite_new-IsValid fresh p new (single refl) x other e
  invite_to-IsValid fresh p x (some (q, party)) new other e single points =
      elim (Bool-cases (party.leader == p)) [
        | inl lead ↦ rw lead (λ r y. invite_player-Agrees w q party points x r y e h)
        | inr not_lead ↦ rw not_lead h
      ]

  pub no_party :
      (p : ℕ) (m : MaybeParty) → get_party w p ≡ some m → m ≡ none → (w.players p).party ≡ none
  unfolding get_party deref
  no_party p m e e' = ground (arith, e, e')

  pub player_invite_to_party-Returns :
      (game : Game) (fresh p x : ℕ)
      → w.parties fresh ≡ none
      → Returns IsValid (player_invite_to_party game fresh p x w)
  unfolding player_invite_to_party
  player_invite_to_party-Returns game fresh p x new = elim (Bool-cases (p == x)) [
    | inl same ↦ rw same h
    | inr other ↦ rw other (
        unless w h (not (game.is_online p)) _ λ _. unless w h (not (game.is_online x)) _ λ _.
          after_inviting w h x p _ λ b. elim (Bool-cases (b || has_party w x)) [
            | inl stop ↦ rw stop h
            | inr go ↦ rw go (
                let (m, e, points) = get_party-Points w h p in
                rw e (
                  invite_to-IsValid fresh p x m new other (alone w h x (or_false b go))
                    (no_party p m e) points))
          ])
  ]
