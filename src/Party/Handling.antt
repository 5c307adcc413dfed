-- ===== src/Party/Handling.antt =====
-- Each handler of parties in src/game.cpp and src/player.cpp, called in a world where the two sides of
-- all parties agree.
use zenonia.Base.{
  ℕ, ◌≡◌, Bool, true, false, not, ◌&&◌, none, some, if◌then◌else◌, arith, Bool-cases, inl, inr,
}
use zenonia.Party.{
  Party, World, Env, Scripts, set_shared_experience, update_player_ticks, clear_player_points,
  update_shared_experience,
}
use zenonia.Party.Methods.{put, pass_party_leadership}
use zenonia.Party.Handlers.{
  Game, MaybeParty, led_by, is_partner, player_join_party, player_revoke_party_invitation,
  player_pass_party_leadership, player_leave_party, player_enable_shared_party_experience,
  on_idle_status, on_attacked_creature_drain_health,
}
use zenonia.Party.Seats.{seat}
use zenonia.Party.Members.{
  IsValid, Alike, put-Agrees, pass_party_leadership-Alike, clear_player_points-Alike,
}
use zenonia.Party.Safety.{
  Returns, Points, after, after_inviting, unless, choose, led_by-Points, join-IsValid,
  revoke-IsValid, leave-IsValid, on_content-IsValid,
}

set_shared_experience-Alike :
    (env : Env) (p : ℕ) (active : Bool) (party : Party) (x : ℕ)
    → Alike (set_shared_experience env party p active).1 party x
unfolding set_shared_experience seat
set_shared_experience-Alike env p active party x = ground arith

pub update_player_ticks-Alike :
    (env : Env) (p points : ℕ) (party : Party) (x : ℕ)
    → Alike (update_player_ticks env party p points) party x
unfolding update_player_ticks update_shared_experience seat
update_player_ticks-Alike env p points party x = ground arith

module _ (w : World) (h : IsValid w) where
  pub player_join_party-Returns :
      (game : Game) (env : Env) (scripts : Scripts) (p leader : ℕ)
      → Returns IsValid (player_join_party game env scripts p leader w)
  unfolding player_join_party
  player_join_party-Returns game env scripts p leader = unless w h (not (game.is_online p)) _ λ _.
      unless w h (not (game.is_online leader)) _ λ _. after_inviting w h leader p _ λ b.
        after w h leader _ λ m points.
          choose w h b _
            (join-IsValid w h env scripts p (led_by leader m) (led_by-Points w leader m points))

  pub player_revoke_party_invitation-Returns :
      (game : Game) (scripts : Scripts) (p x : ℕ)
      → scripts.on_disband ≡ true
      → Returns IsValid (player_revoke_party_invitation game scripts p x w)
  unfolding player_revoke_party_invitation
  player_revoke_party_invitation-Returns game scripts p x agreed =
      unless w h (not (game.is_online p)) _ λ _. after w h p _ λ m points.
        after_inviting w h p x _ λ b.
          choose w h (game.is_online x && b) _
            (revoke-IsValid w h scripts agreed x (led_by p m) (led_by-Points w p m points))

  pub player_leave_party-Returns :
      (game : Game) (env : Env) (scripts : Scripts) (p : ℕ)
      → scripts.on_disband ≡ true
      → Returns IsValid (player_leave_party game env scripts p w)
  unfolding player_leave_party
  player_leave_party-Returns game env scripts p agreed = unless w h (not (game.is_online p)) _ λ _.
      unless w h (game.in_fight p) _
        λ _. after w h p _ λ m points. leave-IsValid w h env scripts agreed p m points

  pub player_enable_shared_party_experience-Returns :
      (game : Game) (env : Env) (p : ℕ) (active : Bool)
      → Returns IsValid (player_enable_shared_party_experience game env p active w)
  unfolding player_enable_shared_party_experience
  player_enable_shared_party_experience-Returns game env p active =
      unless w h (not (game.is_online p)) _ λ _.
        unless w h (game.in_fight p && not (game.in_protection_zone p)) _ λ _.
          after w h p _ λ m points.
            on_content-IsValid w h (λ c. (set_shared_experience env c p active).1) m
              (set_shared_experience-Alike env p active) points

  pub on_idle_status-Returns : (env : Env) (p : ℕ) → Returns IsValid (on_idle_status env p w)
  unfolding on_idle_status
  on_idle_status-Returns env p = after w h p _ λ m points.
      on_content-IsValid w h (λ c. clear_player_points env c p) m
        (λ c. clear_player_points-Alike env c p) points

  pub on_attacked_creature_drain_health-Returns :
      (env : Env) (is_hostile : Bool) (p points : ℕ)
      → Returns IsValid (on_attacked_creature_drain_health env is_hostile p points w)
  unfolding on_attacked_creature_drain_health
  on_attacked_creature_drain_health-Returns env false p points = h
  on_attacked_creature_drain_health-Returns env true p points = after w h p _ λ m found.
      on_content-IsValid w h (λ c. update_player_ticks env c p points) m
        (update_player_ticks-Alike env p points) found

  pass-Returns :
      (game : Game) (env : Env) (p x : ℕ) (m : MaybeParty)
      → Points w m
      → Returns IsValid (elim m [
        | none ↦ some w
        | some (q, content) ↦
            if game.is_online x && is_partner w p x
            then some (put q (pass_party_leadership env w q content x).1 w)
            else some w
      ])
  pass-Returns game env p x none points = h
  pass-Returns game env p x (some (q, party)) points =
      elim (Bool-cases (game.is_online x && is_partner w p x)) [
        | inl e ↦ rw e (λ r y.
            put-Agrees w q party points (pass_party_leadership env w q party x).1 r y
              (pass_party_leadership-Alike w q party points env x y (h q x)) (h r y))
        | inr e ↦ rw e h
      ]

  pub player_pass_party_leadership-Returns :
      (game : Game) (env : Env) (p x : ℕ)
      → Returns IsValid (player_pass_party_leadership game env p x w)
  unfolding player_pass_party_leadership
  player_pass_party_leadership-Returns game env p x = unless w h (not (game.is_online p)) _ λ _.
      after w h p _ λ m points. pass-Returns game env p x (led_by p m) (led_by-Points w p m points)
