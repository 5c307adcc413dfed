-- ===== src/Tests/WaitlistTests.antt =====
-- src/waitlist.cpp on a queue of three.
use zenonia.Base.{ℕ, ◌≡◌, ◌≤◌, refl, false, [], ◌∷◌, none, arith}
use zenonia.Waitlist.{
  Wait, WaitListInfo, Player, Server, cleanup_list, client_login, cleaned, get_client_slot,
  find_client, search, on_turn, is_privileged, has_room, is_empty, is_expired,
}
use zenonia.Waitlist.Queue.{cleanup_list-All}
use zenonia.Waitlist.Admission.{Outcome, client_login-Outcome}
use zenonia.Waitlist.Fairness.{NotDelayed, client_login-NotDelayed}

abbrev wait : ℕ → ℕ → Wait
wait timeout guid = record { timeout = timeout; player_guid = guid }

abbrev player : ℕ → Player
player guid = record { guid = guid; can_always_login = false; account_type = 1; is_premium = false }

abbrev full : Server
full = record { time = 50000; max_players = 10; players_online = 10 }

abbrev one_left : Server
one_left = record { time = 50000; max_players = 11; players_online = 10 }

abbrev three : WaitListInfo
three = record { priority_wait_list = wait 60000 7 ∷ []; wait_list = wait 10 8 ∷ wait 61000 9 ∷ [] }

-- The first entry of the second list has timed out, and keeps its slot.
third : get_client_slot (player 9) (cleaned 50000 three) ≡ 3
unfolding get_client_slot find_client search cleaned cleanup_list is_expired
third = refl

cleanup_list-All_example :
    cleanup_list 50000 (wait 10 8 ∷ wait 61000 9 ∷ []) ≡ wait 10 8 ∷ wait 61000 9 ∷ []
cleanup_list-All_example =
    cleanup_list-All 50000 (wait 10 8 ∷ wait 61000 9 ∷ []) (omega arith)
      ((omega arith, omega arith), ((omega arith, omega arith), tt))

common : is_privileged (player 8) ≡ false
unfolding is_privileged
common = refl

no_room : has_room full three ≡ false
unfolding has_room is_empty
no_room = refl

waits : 1 ≤ get_client_slot (player 9) (cleaned 50000 three)
unfolding get_client_slot find_client search cleaned cleanup_list is_expired
waits = omega arith

client_login-Outcome_example :
    Outcome full (player 8) (cleaned 50000 three) (client_login full (player 8) three)
client_login-Outcome_example = client_login-Outcome full (player 8) three common

client_login-NotDelayed_example :
    NotDelayed (player 9) (cleaned 50000 three) (client_login full (player 8) three)
client_login-NotDelayed_example =
    client_login-NotDelayed full (player 8) (player 9) refl refl three common no_room waits

-- A player of the priority list whose turn it is: the entry is erased through the other list.
turn_undefined : client_login one_left (player 7) three ≡ none
unfolding client_login is_privileged has_room is_empty find_client search cleaned cleanup_list
    is_expired on_turn
turn_undefined = refl
