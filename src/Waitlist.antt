-- ===== src/Waitlist.antt =====
-- `WaitingList` of src/waitlist.cpp, the queue for a server that is full. The clock, the limit and
-- the number of players online are an argument; on a 64-bit machine, where `std::size_t` has 64 bits.
pub mod Queue
pub mod Admission
pub mod Fairness
use zenonia.Base.{
  ℕ, suc, ◌+◌, ◌-◌, ◌*◌, ◌%◌, ◌^◌, Bool, true, false, ◌&&◌, ◌||◌, Option, none, some, List, [], ◌∷◌,
  ◌++◌, length, ltb, leb, ◌==◌, if◌then◌else◌,
}

pub record Wait : Type 0 where
  pub timeout : ℕ
  pub player_guid : ℕ

pub record WaitListInfo : Type 0 where
  pub priority_wait_list : List Wait
  pub wait_list : List Wait

-- What a login reads of the player.
pub record Player : Type 0 where
  pub guid : ℕ
  pub can_always_login : Bool
  pub account_type : ℕ
  pub is_premium : Bool

-- `OTSYS_TIME()`, the limit as a 32-bit number, and `getPlayersOnline()`.
pub record Server : Type 0 where
  pub time : ℕ
  pub max_players : ℕ
  pub players_online : ℕ

-- `(it->timeout - time) <= 0`: the difference of an unsigned and a signed number of 64 bits is unsigned.
unfoldable pub is_expired : ℕ → Wait → Bool
is_expired time w = leb ((w.timeout + (2 ^ 64 - time)) % 2 ^ 64) 0

unfoldable pub cleanup_list : ℕ → List Wait → List Wait
cleanup_list time [] = []
cleanup_list time (w ∷ ws) =
    let rest = cleanup_list time ws in if is_expired time w then rest else w ∷ rest

unfoldable pub get_time : ℕ → ℕ
get_time slot =
    if ltb slot 5
    then 5
    else if ltb slot 10
    then 10
    else if ltb slot 20
    then 20
    else if ltb slot 50
    then 60
    else 120

unfoldable pub get_timeout : ℕ → ℕ
get_timeout slot = get_time slot + 15

-- A loop of `findClient`: whether the player is there, and the slot where the loop ends.
unfoldable pub search : ℕ → ℕ → List Wait → Bool × ℕ
search guid slot [] = (false, slot)
search guid slot (w ∷ ws) =
    let rest = search guid (slot + 1) ws in if w.player_guid == guid then (true, slot) else rest

pub data Place : Type 0 where
  in_priority in_wait nowhere : Place

unfoldable pub find_client : ℕ → WaitListInfo → Place × ℕ
find_client guid info =
    let (found, slot) = search guid 1 info.priority_wait_list in
    if found
    then (Place.in_priority, slot)
    else (let (found', slot') = search guid slot info.wait_list in
        (if found' then Place.in_wait else Place.nowhere, slot'))

-- `erase(it)`, where the iterator stands on the player's first entry.
unfoldable pub erase : ℕ → List Wait → List Wait
erase guid [] = []
erase guid (w ∷ ws) = if w.player_guid == guid then ws else w ∷ erase guid ws

-- `it->timeout = timeout`
unfoldable pub set_timeout : ℕ → ℕ → List Wait → List Wait
set_timeout guid timeout [] = []
set_timeout guid timeout (w ∷ ws) =
    if w.player_guid == guid
    then record w { timeout = timeout } ∷ ws
    else w ∷ set_timeout guid timeout ws

unfoldable pub timeout_at : ℕ → ℕ → ℕ
timeout_at time slot = (time + get_timeout slot * 1000) % 2 ^ 64

unfoldable pub is_empty : List Wait → Bool
is_empty [] = true
is_empty (w ∷ ws) = false

unfoldable pub cleaned : ℕ → WaitListInfo → WaitListInfo
cleaned time info = record {
  priority_wait_list = cleanup_list time info.priority_wait_list;
  wait_list = cleanup_list time info.wait_list;
}

-- A player who is in no list.
unfoldable pub enqueue : Server → Player → WaitListInfo → WaitListInfo
enqueue server player info =
    let ahead = length info.priority_wait_list in
    let entry : ℕ → Wait =
      λ slot. record { timeout = timeout_at server.time (slot + 1); player_guid = player.guid } in
    if player.is_premium
    then record info { priority_wait_list = info.priority_wait_list ++ (entry ahead ∷ []) }
    else record info { wait_list = info.wait_list ++ (entry (ahead + length info.wait_list) ∷ []) }

-- A player at a place and a slot. `waitList.erase` of an entry of the priority list is undefined: `none`.
unfoldable pub on_turn : Server → Player → WaitListInfo → Place → ℕ → Option (Bool × WaitListInfo)
on_turn server player info nowhere slot = some (false, enqueue server player info)
on_turn server player info in_wait slot =
    if leb (server.players_online + slot) server.max_players
    then some (true, record info { wait_list = erase player.guid info.wait_list })
    else some (
      false,
      record info {
        wait_list = set_timeout player.guid (timeout_at server.time slot) info.wait_list;
      },
    )
on_turn server player info in_priority slot =
    if leb (server.players_online + slot) server.max_players
    then none
    else some (
      false,
      record info {
        priority_wait_list =
            set_timeout player.guid (timeout_at server.time slot) info.priority_wait_list;
      },
    )

unfoldable pub is_privileged : Player → Bool
is_privileged player = player.can_always_login || leb 4 player.account_type

unfoldable pub has_room : Server → WaitListInfo → Bool
unfolding is_empty
has_room server info =
    (server.max_players == 0)
    || (is_empty info.priority_wait_list
        && is_empty info.wait_list
        && ltb server.players_online server.max_players)

unfoldable pub client_login : Server → Player → WaitListInfo → Option (Bool × WaitListInfo)
client_login server player info =
    if is_privileged player
    then some (true, info)
    else if has_room server info
    then some (true, info)
    else (let info' = cleaned server.time info in
        let (place, slot) = find_client player.guid info' in on_turn server player info' place slot)

unfoldable pub get_client_slot : Player → WaitListInfo → ℕ
get_client_slot player info =
    let (place, slot) = find_client player.guid info in
    elim place [ in_priority ↦ slot | in_wait ↦ slot | nowhere ↦ 0 ]
