-- ===== src/Tests/PartyTests.antt =====
-- src/party.cpp with three players: one founds a party, the others join it and leave.
use zenonia.Base.{
  ℕ, ◌+◌, ◌≡◌, ◌↔◌, refl, true, false, Option, none, some, List, [], ◌∷◌, ◌==◌, ◌||◌, if◌then◌else◌,
  arith,
}
use zenonia.Party.{
  Party, World, Env, Scripts, is_empty, can_enable_shared_experience, set_shared_experience,
}
use zenonia.Party.Methods.{leave_party, invite_player, founded_by, new_party, join_party}
use zenonia.Party.Handlers.{
  Game, Target, on_remove_creature, on_target_creature_gain_health, player_invite_to_party,
  has_party, player_join_party, player_enable_shared_party_experience, player_pass_party_leadership,
  player_leave_party,
}
use zenonia.Party.Members.{IsValid}
use zenonia.Party.Seats.{seat, seats, pending, belongs, invited}
use zenonia.Party.Counts.{count}
use zenonia.Party.Safety.{Returns}
use zenonia.Party.Removal.{Gone, on_remove_creature-Returns}
use zenonia.Party.Session.{Event, Moment, dispatch, run, Fits, run-Returns}
use zenonia.Party.Sharing.{IsIn, IsFit, can_enable_shared_experience_iff}

abbrev game : Game
game = record { is_online = λ p. true; in_fight = λ p. false; in_protection_zone = λ p. false }

abbrev env : Env
env = record {
  level = λ p. 30 + p;
  position = λ p. record { x = 100 + p; y = 100; z = 7 };
  not_gain_in_fight = λ p. false;
  time = 5000;
  pz_locked = 60000;
}

abbrev willing : Scripts
willing = record { on_join = true; on_leave = true; on_disband = true }

abbrev world : World
world = record {
  players = λ p. record { party = none; invite_party_list = [] };
  parties = λ q. none;
}

abbrev at : Event → Moment
at event = record { game = game; env = env; scripts = willing; event = event }

abbrev events : List Moment
events =
    at (Event.invite 1 2 900)
    ∷ at (Event.accept 2 1)
    ∷ at (Event.share 1 true)
    ∷ at (Event.pass 1 2)
    ∷ at (Event.leave 2)
    ∷ []

world-IsValid : IsValid world
unfolding seats pending belongs invited count
world-IsValid q p = (refl, refl, omega arith)

events_fit : Fits events world
events_fit = (
  refl,
  refl,
  λ v e. (refl, tt, λ v e. (refl, tt, λ v e. (refl, tt, λ v e. (refl, tt, λ v e. tt)))),
)

run-Returns_example : Returns IsValid (run events world)
run-Returns_example = run-Returns events world events_fit world-IsValid

-- After all of it nobody has a party.
abbrev party_of : Option World → ℕ → Option ℕ
party_of none p = some 404
party_of (some w) p = (w.players p).party

joined : party_of (run (at (Event.invite 1 2 900) ∷ at (Event.accept 2 1) ∷ []) world) 2 ≡ some 900
unfolding run dispatch player_invite_to_party has_party player_join_party invite_player founded_by
    new_party join_party
joined = refl

left : party_of (run events world) 1 ≡ none
unfolding run dispatch player_invite_to_party has_party player_join_party invite_player founded_by
    new_party player_enable_shared_party_experience join_party player_pass_party_leadership
    set_shared_experience player_leave_party leave_party
left = refl

-- The leader 1 with the member 2, and 3 invited.
abbrev trio : Party
trio = record {
  leader = 1;
  member_list = 2 ∷ [];
  invite_list = 3 ∷ [];
  shared_exp_active = true;
  shared_exp_enabled = false;
  ticks_map = λ p. if p == 9 then none else some 4000;
}

can_enable_shared_experience_iff_example :
    (can_enable_shared_experience env trio ≡ true)
    ↔ ((is_empty trio.member_list ≡ false) × ((p : ℕ) → IsIn p trio → IsFit env trio p))
can_enable_shared_experience_iff_example = can_enable_shared_experience_iff env trio

-- The party 900 of 1 and 2, which invites 3.
abbrev couple : World
couple = record {
  players = λ p.
      if (p == 1) || (p == 2)
      then record { party = some 900; invite_party_list = [] }
      else if p == 3
      then record { party = none; invite_party_list = 900 ∷ [] }
      else record { party = none; invite_party_list = [] };
  parties = λ q. if q == 900 then some trio else none;
}

couple-IsValid : IsValid couple
unfolding seats seat pending belongs invited count
couple-IsValid q p = ground arith

on_remove_creature-Returns_example :
    Returns
      (λ v. IsValid v × (willing.on_leave ≡ true → Gone 1 v))
      (on_remove_creature env willing 1 couple)
on_remove_creature-Returns_example =
    on_remove_creature-Returns env willing 1 couple refl couple-IsValid

-- The leader of a party of one leaves, and a script refuses that it is disbanded: the party stays, and
-- its leader has none.
abbrev unwilling : Scripts
unwilling = record { on_join = true; on_leave = true; on_disband = false }

abbrev alone : Party
alone = record trio { member_list = []; invite_list = [] }

abbrev left_behind : World
left_behind = (leave_party env unwilling 900 alone 1 couple).1

refused_disband : (seats left_behind 900 1 ≡ 1) × (belongs left_behind 1 900 ≡ 0)
unfolding leave_party seats seat belongs count
refused_disband = (refl, refl)

-- Who heals the player 2 of the own party gets no credit, since 2 has no master.
abbrev partner : Target
partner = record { player = some 2; master = none }

partner_healed : on_target_creature_gain_health env partner 1 50 couple ≡ some couple
unfolding on_target_creature_gain_health
partner_healed = refl
