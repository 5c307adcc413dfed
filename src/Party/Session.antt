-- ===== src/Party/Session.antt =====
-- Any sequence of the events by which src/game.cpp and src/player.cpp change parties.
use zenonia.Base.{ℕ, ◌≡◌, refl, Bool, true, Option, none, some, List, [], ◌∷◌}
use zenonia.Party.{World, Env, Scripts}
use zenonia.Party.Handlers.{
  ◌>>=◌, Game, Target, player_invite_to_party, player_join_party, player_revoke_party_invitation,
  player_pass_party_leadership, player_leave_party, player_enable_shared_party_experience,
  on_remove_creature, on_idle_status, on_attacked_creature_drain_health,
  on_target_creature_gain_health,
}
use zenonia.Party.Members.{IsValid}
use zenonia.Party.Safety.{Returns}
use zenonia.Party.Handling.{
  player_join_party-Returns, player_revoke_party_invitation-Returns,
  player_pass_party_leadership-Returns, player_leave_party-Returns,
  player_enable_shared_party_experience-Returns, on_idle_status-Returns,
  on_attacked_creature_drain_health-Returns,
}
use zenonia.Party.Inviting.{player_invite_to_party-Returns, on_target_creature_gain_health-Returns}
use zenonia.Party.Removal.{Gone, on_remove_creature-Returns}

-- An event, with the player first; `invite` has the address that `new` would return.
pub data Event : Type 0 where
  invite : ℕ → ℕ → ℕ → Event
  accept revoke pass : ℕ → ℕ → Event
  leave log_out idle : ℕ → Event
  share : ℕ → Bool → Event
  drain : ℕ → Bool → ℕ → Event
  heal : ℕ → Target → ℕ → Event

-- What the game and the scripts answer at the time of an event.
pub record Moment : Type 0 where
  pub game : Game
  pub env : Env
  pub scripts : Scripts
  pub event : Event

unfoldable pub dispatch : Moment → Event → World → Option World
dispatch m (invite p x fresh) w = player_invite_to_party m.game fresh p x w
dispatch m (accept p leader) w = player_join_party m.game m.env m.scripts p leader w
dispatch m (revoke p x) w = player_revoke_party_invitation m.game m.scripts p x w
dispatch m (pass p x) w = player_pass_party_leadership m.game m.env p x w
dispatch m (leave p) w = player_leave_party m.game m.env m.scripts p w
dispatch m (log_out p) w = on_remove_creature m.env m.scripts p w
dispatch m (idle p) w = on_idle_status m.env p w
dispatch m (share p active) w = player_enable_shared_party_experience m.game m.env p active w
dispatch m (drain p is_hostile points) w =
    on_attacked_creature_drain_health m.env is_hostile p points w
dispatch m (heal p target points) w = on_target_creature_gain_health m.env target p points w

unfoldable pub run : List Moment → World → Option World
run [] w = some w
run (m ∷ ms) w = dispatch m m.event w >>= run ms

-- `new` returns an address where no party is.
abbrev pub IsFresh : Event → World → Type 0
IsFresh (invite p x fresh) w = w.parties fresh ≡ none
IsFresh _ w = Unit

-- Addresses are fresh where they are used, and no script refuses that a party is disbanded.
abbrev pub Fits : List Moment → World → Type 0
Fits [] w = Unit
Fits (m ∷ ms) w =
    (m.scripts.on_disband ≡ true)
    × IsFresh m.event w
    × ((v : World) → dispatch m m.event w ≡ some v → Fits ms v)

removed-Returns :
    (Q : World → Type 0) (o : Option World) → Returns (λ v. IsValid v × Q v) o → Returns IsValid o
removed-Returns Q none h = h
removed-Returns Q (some v) h = h.0

dispatch-Returns :
    (m : Moment) (e : Event) (w : World)
    → m.scripts.on_disband ≡ true
    → IsFresh e w
    → IsValid w
    → Returns IsValid (dispatch m e w)
unfolding dispatch
dispatch-Returns m (invite p x fresh) w agreed new h =
    player_invite_to_party-Returns w h m.game fresh p x new
dispatch-Returns m (accept p leader) w agreed new h =
    player_join_party-Returns w h m.game m.env m.scripts p leader
dispatch-Returns m (revoke p x) w agreed new h =
    player_revoke_party_invitation-Returns w h m.game m.scripts p x agreed
dispatch-Returns m (pass p x) w agreed new h =
    player_pass_party_leadership-Returns w h m.game m.env p x
dispatch-Returns m (leave p) w agreed new h =
    player_leave_party-Returns w h m.game m.env m.scripts p agreed
dispatch-Returns m (log_out p) w agreed new h =
    removed-Returns (λ v. m.scripts.on_leave ≡ true → Gone p v)
      (on_remove_creature m.env m.scripts p w)
      (on_remove_creature-Returns m.env m.scripts p w agreed h)
dispatch-Returns m (idle p) w agreed new h = on_idle_status-Returns w h m.env p
dispatch-Returns m (share p active) w agreed new h =
    player_enable_shared_party_experience-Returns w h m.game m.env p active
dispatch-Returns m (drain p is_hostile points) w agreed new h =
    on_attacked_creature_drain_health-Returns w h m.env is_hostile p points
dispatch-Returns m (heal p target points) w agreed new h =
    on_target_creature_gain_health-Returns w h m.env target p points

step :
    (ms : List Moment) (o : Option World)
    → Returns IsValid o
    → ((v : World) → o ≡ some v → Fits ms v)
    → ((v : World) → Fits ms v → IsValid v → Returns IsValid (run ms v))
    → Returns IsValid (o >>= run ms)
step ms none h fits next = h
step ms (some v) h fits next = next v (fits v refl) h

-- From a world where the two sides of every party agree, any sequence of events that fits comes to an
-- end in such a world, and no pointer to a deleted party is followed on the way.
pub run-Returns :
    (ms : List Moment) (w : World) → Fits ms w → IsValid w → Returns IsValid (run ms w)
unfolding run
run-Returns [] w fits h = h
run-Returns (m ∷ ms) w (agreed, new, fits) h =
    step ms (dispatch m m.event w) (dispatch-Returns m m.event w agreed new h) fits (run-Returns ms)
