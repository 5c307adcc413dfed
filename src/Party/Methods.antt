-- ===== src/Party/Methods.antt =====
-- The methods of `Party` in src/party.cpp, with the writes to its players.
use zenonia.Base.{
  update, ℕ, Bool, true, false, not, ◌&&◌, ◌||◌, Option, none, some, List, [], ◌∷◌, ◌++◌, ◌==◌,
  if◌then◌else◌,
}
use zenonia.Party.{
  Party, World, Env, Scripts, same_party, is_empty, contains, erase, remove, empty,
  is_player_invited, update_shared_experience, clear_player_points,
}

unfoldable pub set_party : ℕ → Option ℕ → World → World
set_party p o w = record w { players = update p (record (w.players p) { party = o }) w.players }

unfoldable pub add_party_invitation : ℕ → ℕ → World → World
unfolding contains
add_party_invitation p q w =
    let l = (w.players p).invite_party_list in
    let l' = if contains q l then l else q ∷ l in
    record w { players = update p (record (w.players p) { invite_party_list = l' }) w.players }

unfoldable pub remove_party_invitation : ℕ → ℕ → World → World
unfolding remove
remove_party_invitation p q w =
    let l = remove q (w.players p).invite_party_list in
    record w { players = update p (record (w.players p) { invite_party_list = l }) w.players }

-- The party's fields are written back.
unfoldable pub put : ℕ → Party → World → World
put q party w = record w { parties = update q (some party) w.parties }

unfoldable pub for_each : (ℕ → World → World) → List ℕ → World → World
for_each f [] w = w
for_each f (p ∷ ps) w = for_each f ps (f p w)

-- The fields that the constructor gives.
unfoldable pub founded_by : ℕ → Party
founded_by leader = record {
  leader = leader;
  member_list = [];
  invite_list = [];
  shared_exp_active = false;
  shared_exp_enabled = false;
  ticks_map = λ p. none;
}

-- `new Party(leader)`, at an address that is given.
unfoldable pub new_party : ℕ → ℕ → World → World
unfolding put set_party founded_by
new_party q leader w = set_party leader (some q) (put q (founded_by leader) w)

-- `delete this`
unfoldable pub free : ℕ → World → World
free q w = record w { parties = update q none w.parties }

-- A refused `disband` leaves the party as it is.
unfoldable pub disband : Scripts → ℕ → Party → World → World
unfolding set_party remove_party_invitation for_each put free
disband scripts q party w =
    if scripts.on_disband
    then free q (
        for_each (λ p. set_party p none) party.member_list
          (for_each (λ p. remove_party_invitation p q) party.invite_list
            (set_party party.leader none w)))
    else put q party w

unfoldable pub pass_party_leadership : Env → World → ℕ → Party → ℕ → Bool × Party
unfolding erase update_shared_experience
pass_party_leadership env w q party p =
    if party.leader == p || not (same_party (w.players p).party q) then (false, party) else (
      true,
      update_shared_experience env
          (record party { leader = p; member_list = party.leader ∷ erase p party.member_list }),
    )

-- A leader who leaves: is the party without one now, and the party after the leadership is passed on.
unfoldable pub succeed : Env → World → ℕ → Party → List ℕ → Bool × Party
unfolding pass_party_leadership
succeed env w q party [] = (true, party)
succeed env w q party (m ∷ ms) =
    if is_empty ms && is_empty party.invite_list
    then (true, party)
    else (false, (pass_party_leadership env w q party m).1)

unfoldable pub leave_party : Env → Scripts → ℕ → Party → ℕ → World → Bool × World
unfolding succeed erase set_party update_shared_experience clear_player_points empty disband put
leave_party env scripts q party p w =
    if not (same_party (w.players p).party q) && not (party.leader == p)
    then (false, w)
    else if not scripts.on_leave
    then (false, w)
    else (let (missing_leader, party1) =
          if party.leader == p then succeed env w q party party.member_list else (false, party) in
        let party2 = record party1 { member_list = erase p party1.member_list } in
        let w' = set_party p none w in
        let party3 = clear_player_points env (update_shared_experience env party2) p in
        (
          true,
          if missing_leader || empty party3 then disband scripts q party3 w' else put q party3 w',
        ))

unfoldable pub join_party : Env → Scripts → ℕ → Party → ℕ → World → Bool × World
unfolding contains erase set_party remove_party_invitation update_shared_experience put
join_party env scripts q party p w =
    if not scripts.on_join
    then (false, w)
    else if not (contains p party.invite_list)
    then (false, w)
    else (let party1 = record party {
      invite_list = erase p party.invite_list;
      member_list = party.member_list ++ (p ∷ []);
    } in
        let w' = remove_party_invitation p q (set_party p (some q) w) in
        (true, put q (update_shared_experience env party1) w'))

unfoldable pub remove_invite : Scripts → ℕ → Party → ℕ → Bool → World → Bool × World
unfolding contains erase remove_party_invitation empty disband put
remove_invite scripts q party p remove_from_player w =
    if not (contains p party.invite_list)
    then (false, w)
    else (let party1 = record party { invite_list = erase p party.invite_list } in
        let w' = if remove_from_player then remove_party_invitation p q w else w in
        (true, if empty party1 then disband scripts q party1 w' else put q party1 w'))

unfoldable pub invite_player : ℕ → Party → ℕ → World → Bool × World
unfolding is_player_invited add_party_invitation put
invite_player q party p w = if is_player_invited party p then (false, w) else (
  true,
  add_party_invitation p q (put q (record party { invite_list = party.invite_list ++ (p ∷ []) }) w),
)
