-- ===== src/Waitlist/Fairness.antt =====
-- What a login of src/waitlist.cpp does to the slots of the other players.
use zenonia.Base.{
  ℕ, ◌+◌, ◌≤◌, ◌≡◌, sym, ◌∙◌, Bool, false, Option, none, some, List, [], ◌∷◌, ◌++◌, length, leb,
  ◌==◌, arith, Bool-cases, inl, inr,
}
use zenonia.Waitlist.{
  Wait, WaitListInfo, Player, Server, search, erase, set_timeout, Place, find_client,
  get_client_slot, nowhere, in_wait, in_priority, cleaned, client_login, on_turn, enqueue,
  is_privileged, has_room, timeout_at,
}
use zenonia.Waitlist.Queue.{search-le, search-set_timeout, search-append, search-erase}
use zenonia.Waitlist.Admission.{slot_in, get_client_slot_lem}

slot_in-append :
    (guid : ℕ) (ps ws vs : List Wait)
    → 1 ≤ slot_in guid ps ws
    → slot_in guid ps (ws ++ vs) ≡ slot_in guid ps ws
unfolding slot_in
slot_in-append guid ps ws vs h = ground (arith, h, search-append guid (search guid 1 ps).1 ws vs)

slot_in-erase :
    (guid g : ℕ) (ps ws : List Wait)
    → (g == guid) ≡ false
    → 1 ≤ slot_in guid ps ws
    → (1 ≤ slot_in guid ps (erase g ws)) × (slot_in guid ps (erase g ws) ≤ slot_in guid ps ws)
unfolding slot_in
slot_in-erase guid g ps ws ne h =
    let slot = (search guid 1 ps).1 in
    ground (
      arith,
      h,
      search-erase guid g slot slot ws ne,
      search-le guid 1 ps,
      search-le guid slot (erase g ws),
    )

slot_in-set_timeout :
    (guid g t : ℕ) (ps ws : List Wait)
    → (slot_in guid (set_timeout g t ps) ws ≡ slot_in guid ps ws)
      × (slot_in guid ps (set_timeout g t ws) ≡ slot_in guid ps ws)
unfolding slot_in
slot_in-set_timeout guid g t ps ws = (
  rw (search-set_timeout guid 1 g t ps),
  rw (search-set_timeout guid (search guid 1 ps).1 g t ws),
)

-- A player who waits still does, and not at a later slot.
abbrev pub NotDelayed : Player → WaitListInfo → Option (Bool × WaitListInfo) → Type 0
NotDelayed other before none = Unit
NotDelayed other before (some (accepted, after)) =
    (1 ≤ get_client_slot other after) × (get_client_slot other after ≤ get_client_slot other before)

abbrev slot_at : Player → WaitListInfo → ℕ
slot_at player info = slot_in player.guid info.priority_wait_list info.wait_list

Kept : Player → WaitListInfo → WaitListInfo → Type 0
Kept other before after =
    (1 ≤ get_client_slot other after) × (get_client_slot other after ≤ get_client_slot other before)

same_slot :
    (other : Player) (before after : WaitListInfo)
    → 1 ≤ get_client_slot other before
    → slot_at other after ≡ slot_at other before
    → Kept other before after
unfolding Kept
same_slot other before after h e =
    let same : get_client_slot other after ≡ get_client_slot other before =
      get_client_slot_lem other after ∙ e ∙ sym (get_client_slot_lem other before) in
    omega (arith, h, same)

earlier_slot :
    (other : Player) (before after : WaitListInfo)
    → (1 ≤ slot_at other after) × (slot_at other after ≤ slot_at other before)
    → Kept other before after
unfolding Kept
earlier_slot other before after h =
    rw (get_client_slot_lem other after, get_client_slot_lem other before) h

module _ (server : Server) (player other : Player) (apart : (player.guid == other.guid) ≡ false)
    (ordinary : player.is_premium ≡ false) where
  on_turn-NotDelayed :
      (info : WaitListInfo) (place : Place) (slot : ℕ)
      → 1 ≤ get_client_slot other info
      → NotDelayed other info (on_turn server player info place slot)
  unfolding on_turn enqueue Kept
  on_turn-NotDelayed info nowhere slot h =
      let ahead = length info.priority_wait_list + length info.wait_list in
      let entry : Wait = record {
        timeout = timeout_at server.time (ahead + 1);
        player_guid = player.guid;
      } in
      let after : WaitListInfo = record info { wait_list = info.wait_list ++ (entry ∷ []) } in
      let waits : 1 ≤ slot_at other info = rw (get_client_slot_lem other info) at h in
      simp ordinary (
        same_slot other info after h
          (slot_in-append other.guid info.priority_wait_list info.wait_list (entry ∷ []) waits))
  on_turn-NotDelayed info in_wait slot h =
      let g = player.guid in
      let t = timeout_at server.time slot in
      let ps = info.priority_wait_list in
      let ws = info.wait_list in
      let waits : 1 ≤ slot_at other info = rw (get_client_slot_lem other info) at h in
      elim (Bool-cases (leb (server.players_online + slot) server.max_players)) [
        | inl e ↦ rw e (
            earlier_slot other info (record info { wait_list = erase g ws })
              (slot_in-erase other.guid g ps ws apart waits))
        | inr e ↦ rw e (
            same_slot other info (record info { wait_list = set_timeout g t ws }) h
              (slot_in-set_timeout other.guid g t ps ws).1)
      ]
  on_turn-NotDelayed info in_priority slot h =
      let g = player.guid in
      let t = timeout_at server.time slot in
      let ps = info.priority_wait_list in
      elim (Bool-cases (leb (server.players_online + slot) server.max_players)) [
        | inl e ↦ rw e tt
        | inr e ↦ rw e (
            same_slot other info (record info { priority_wait_list = set_timeout g t ps }) h
              (slot_in-set_timeout other.guid g t ps info.wait_list).0)
      ]

  -- The login of a player without premium does not take any other player back in the queue.
  pub client_login-NotDelayed :
      (info : WaitListInfo)
      → is_privileged player ≡ false
      → has_room server info ≡ false
      → 1 ≤ get_client_slot other (cleaned server.time info)
      → NotDelayed other (cleaned server.time info) (client_login server player info)
  unfolding client_login
  client_login-NotDelayed info common full waits =
      let info' = cleaned server.time info in
      let (place, slot) = find_client player.guid info' in
      rw (common, full) (on_turn-NotDelayed info' place slot waits)
