-- ===== src/Waitlist/Admission.antt =====
-- Whom `clientLogin` of src/waitlist.cpp lets in, and what it does to the others.
use zenonia.Base.{
  ℕ, ◌+◌, ◌≤◌, ◌<◌, ◌≡◌, refl, ap, ◌∙◌, Bool, true, false, ◌||◌, Option, none, some, List, [], ◌∷◌,
  ◌++◌, length, leb, if◌then◌else◌, arith, Bool-cases, inl, inr, ◌⊎◌,
}
use zenonia.Waitlist.{
  Wait, WaitListInfo, Player, Server, search, set_timeout, Place, find_client, get_client_slot,
  nowhere, in_wait, in_priority, cleaned, client_login, on_turn, enqueue, is_empty, is_privileged,
  has_room, timeout_at,
}
use zenonia.Waitlist.Queue.{is_in, search_start, search-le, search-set_timeout, search-append_new}

-- The slot of a player by the two lists.
unfoldable pub slot_in : ℕ → List Wait → List Wait → ℕ
slot_in guid ps ws =
    let (found, slot) = search guid 1 ps in
    let (found', slot') = search guid slot ws in if found then slot else if found' then slot' else 0

pub get_client_slot_lem :
    (player : Player) (info : WaitListInfo)
    → get_client_slot player info ≡ slot_in player.guid info.priority_wait_list info.wait_list
unfolding get_client_slot find_client slot_in
get_client_slot_lem player info = ground arith

-- A player that either list has has a slot.
slot_in-pos :
    (guid : ℕ) (ps ws : List Wait)
    → (is_in guid ps || is_in guid ws) ≡ true
    → 1 ≤ slot_in guid ps ws
unfolding slot_in
slot_in-pos guid ps ws h =
    let slot = (search guid 1 ps).1 in
    ground (arith, h, search_start guid slot 1 ws, search-le guid 1 ps, search-le guid slot ws)

-- Where `findClient` finds a player.
abbrev StandsAt : ℕ → WaitListInfo → Place × ℕ → Type 0
StandsAt guid info (in_priority, slot) = (is_in guid info.priority_wait_list ≡ true) × (1 ≤ slot)
StandsAt guid info (in_wait, slot) = (is_in guid info.wait_list ≡ true) × (1 ≤ slot)
StandsAt guid info (nowhere, slot) = Unit

find_client-StandsAt : (guid : ℕ) (info : WaitListInfo) → StandsAt guid info (find_client guid info)
unfolding find_client
find_client-StandsAt guid info =
    let ps = info.priority_wait_list in
    let ws = info.wait_list in
    let slot = (search guid 1 ps).1 in
    let pos = search-le guid 1 ps in
    elim (Bool-cases (search guid 1 ps).0) [
      | inl e ↦ rw e (e, pos)
      | inr e ↦ rw e (elim (Bool-cases (search guid slot ws).0) [
        | inl e' ↦
            rw e' (search_start guid 1 slot ws ∙ e', omega (arith, pos, search-le guid slot ws))
        | inr e' ↦ rw e' tt
      ])
    ]

-- What a player who is not privileged may get. Undefined behaviour is for a player in the priority list, and only
-- while there is room; `old` has the lists after their cleanup.
abbrev pub Outcome : Server → Player → WaitListInfo → Option (Bool × WaitListInfo) → Type 0
Outcome server player old none =
    (is_in player.guid old.priority_wait_list ≡ true) × (server.players_online < server.max_players)
Outcome server player old (some (true, info)) =
    (server.max_players ≡ 0) ⊎ (server.players_online < server.max_players)
Outcome server player old (some (false, info)) = 1 ≤ get_client_slot player info

in_queue :
    (player : Player) (info : WaitListInfo)
    → (is_in player.guid info.priority_wait_list || is_in player.guid info.wait_list) ≡ true
    → 1 ≤ get_client_slot player info
in_queue player info h =
    rw (get_client_slot_lem player info)
      (slot_in-pos player.guid info.priority_wait_list info.wait_list h)

is_in-set_timeout :
    (guid timeout : ℕ) (ws : List Wait) → is_in guid (set_timeout guid timeout ws) ≡ is_in guid ws
is_in-set_timeout guid timeout ws =
    ap (λ found. found.0) (search-set_timeout guid 1 guid timeout ws)

true_or : {a : Bool} (b : Bool) → a ≡ true → (a || b) ≡ true
true_or b h = ground (arith, h)

or_true : (a : Bool) {b : Bool} → b ≡ true → (a || b) ≡ true
or_true a h = ground (arith, h)

enqueue-in_queue :
    (server : Server) (player : Player) (info : WaitListInfo)
    → 1 ≤ get_client_slot player (enqueue server player info)
unfolding enqueue get_client_slot
enqueue-in_queue server player info =
    let ps = info.priority_wait_list in
    let ws = info.wait_list in
    let entry : ℕ → Wait =
      λ slot. record { timeout = timeout_at server.time (slot + 1); player_guid = player.guid } in
    let behind = entry (length ps + length ws) in
    elim (Bool-cases player.is_premium) [
      | inl e ↦ rw e (
          in_queue player (record info { priority_wait_list = ps ++ (entry (length ps) ∷ []) })
            (rw (search-append_new player.guid 1 ps (entry (length ps)) refl)))
      | inr e ↦ rw e (
          in_queue player (record info { wait_list = ws ++ (behind ∷ []) })
            (or_true (is_in player.guid ps) (search-append_new player.guid 1 ws behind refl)))
    ]

on_turn-Outcome :
    (server : Server) (player : Player) (info : WaitListInfo) (place : Place) (slot : ℕ)
    → StandsAt player.guid info (place, slot)
    → Outcome server player info (on_turn server player info place slot)
unfolding on_turn
on_turn-Outcome server player info nowhere slot h = enqueue-in_queue server player info
on_turn-Outcome server player info in_wait slot (h, pos) =
    let timeout = timeout_at server.time slot in
    let ws = set_timeout player.guid timeout info.wait_list in
    elim (Bool-cases (leb (server.players_online + slot) server.max_players)) [
      | inl e ↦ rw e (inr (ground (arith, e, pos)))
      | inr e ↦ rw e (
          in_queue player (record info { wait_list = ws })
            (or_true (is_in player.guid info.priority_wait_list)
              (is_in-set_timeout player.guid timeout info.wait_list ∙ h)))
    ]
on_turn-Outcome server player info in_priority slot (h, pos) =
    let timeout = timeout_at server.time slot in
    let ps = set_timeout player.guid timeout info.priority_wait_list in
    elim (Bool-cases (leb (server.players_online + slot) server.max_players)) [
      | inl e ↦ rw e (h, ground (arith, e, pos))
      | inr e ↦ rw e (
          in_queue player (record info { priority_wait_list = ps })
            (true_or (is_in player.guid info.wait_list)
              (is_in-set_timeout player.guid timeout info.priority_wait_list ∙ h)))
    ]

has_room_lem :
    (server : Server) (info : WaitListInfo)
    → has_room server info ≡ true
    → (server.max_players ≡ 0) ⊎ (server.players_online < server.max_players)
unfolding has_room is_empty
has_room_lem server info h = ground (arith, h)

-- A player who is not privileged is let in only while the server has room or no limit, and one who is refused is in the
-- queue afterwards. The login is undefined at most for a player whom the priority list has after the cleanup, while
-- the server has room.
pub client_login-Outcome :
    (server : Server) (player : Player) (info : WaitListInfo)
    → is_privileged player ≡ false
    → Outcome server player (cleaned server.time info) (client_login server player info)
unfolding client_login
client_login-Outcome server player info common =
    let info' = cleaned server.time info in
    let (place, slot) = find_client player.guid info' in
    rw common (elim (Bool-cases (has_room server info)) [
      | inl e ↦ rw e (has_room_lem server info e)
      | inr e ↦
          rw e (
            on_turn-Outcome server player info' place slot (find_client-StandsAt player.guid info'))
    ])
