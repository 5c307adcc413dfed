-- ===== src/Party.antt =====
-- `Party` of src/party.cpp and the party's part of `Player` (src/player.cpp): who is in which party, who
-- is invited, and who gets a share. A pointer is the number of the player or of the party. What is sent
-- to clients is left out; the answers of the scripts are an argument.
pub mod Session
pub mod Sharing
pub mod Removal
pub mod Inviting
pub mod Handling
pub mod Safety
pub mod Leaving
pub mod Members
pub mod Disband
pub mod Seats
pub mod Counts
pub mod Methods
pub mod Departure
pub mod Handlers
use zenonia.Base.{
  ℕ, suc, ◌+◌, ◌-◌, ◌*◌, ◌/◌, ◌%◌, ◌^◌, Bool, true, false, not, ◌&&◌, ◌||◌, Option, none, some,
  List, [], ◌∷◌, ◌++◌, length, ltb, leb, ◌==◌, if◌then◌else◌, update,
}
use zenonia.Position.{Position, are_in_range}

-- The part of a player that parties change.
pub record Player : Type 0 where
  pub party : Option ℕ
  pub invite_party_list : List ℕ

pub record Party : Type 0 where
  pub leader : ℕ
  pub member_list : List ℕ
  pub invite_list : List ℕ
  pub shared_exp_active : Bool
  pub shared_exp_enabled : Bool
  pub ticks_map : ℕ → Option ℕ

-- All players, and the parties that are allocated.
pub record World : Type 0 where
  pub players : ℕ → Player
  pub parties : ℕ → Option Party

-- What the methods read of players, of the clock and of the configuration.
pub record Env : Type 0 where
  pub level : ℕ → ℕ
  pub position : ℕ → Position
  pub not_gain_in_fight : ℕ → Bool
  pub time : ℕ
  pub pz_locked : ℕ

-- The answers of `eventPartyOnJoin`, `eventPartyOnLeave` and `eventPartyOnDisband`.
pub record Scripts : Type 0 where
  pub on_join : Bool
  pub on_leave : Bool
  pub on_disband : Bool

-- `party == this`
abbrev pub same_party : Option ℕ → ℕ → Bool
same_party none q = false
same_party (some r) q = r == q

abbrev pub is_empty : List ℕ → Bool
is_empty [] = true
is_empty (x ∷ xs) = false

-- `std::find(...) != end()`
unfoldable pub contains : ℕ → List ℕ → Bool
contains p [] = false
contains p (x ∷ xs) = x == p || contains p xs

-- `erase` of what `std::find` finds, if it finds it.
unfoldable pub erase : ℕ → List ℕ → List ℕ
erase p [] = []
erase p (x ∷ xs) = if x == p then xs else x ∷ erase p xs

-- `forward_list::remove`
unfoldable pub remove : ℕ → List ℕ → List ℕ
remove p [] = []
remove p (x ∷ xs) = let rest = remove p xs in if x == p then rest else x ∷ rest

-- `empty()`
unfoldable pub empty : Party → Bool
empty party = is_empty party.member_list && is_empty party.invite_list

unfoldable pub is_player_invited : Party → ℕ → Bool
unfolding contains
is_player_invited party p = contains p party.invite_list

unfoldable pub highest_level : Env → ℕ → List ℕ → ℕ
highest_level env best [] = best
highest_level env best (p ∷ ps) =
    highest_level env (if ltb best (env.level p) then env.level p else best) ps

-- `ceil(highestLevel * 2 / 3)`, which the `float` has exactly for levels below 2 ^ 23.
unfoldable pub min_level : ℕ → ℕ
min_level highest = (highest * 2 + 2) / 3

-- Has the player healed or attacked lately? The difference is an unsigned number of 64 bits.
unfoldable pub is_active : Env → Option ℕ → Bool
is_active env none = false
is_active env (some ticks) = leb ((env.time + (2 ^ 64 - ticks)) % 2 ^ 64) env.pz_locked

unfoldable pub can_use_shared_experience : Env → Party → ℕ → Bool
unfolding highest_level min_level is_active
can_use_shared_experience env party p =
    if is_empty party.member_list
    then false
    else (let highest = highest_level env (env.level party.leader) party.member_list in
        if ltb (env.level p) (min_level highest)
        then false
        else if not (are_in_range 30 30 1 (env.position party.leader) (env.position p))
        then false
        else env.not_gain_in_fight p || is_active env (party.ticks_map p))

unfoldable pub all_can_use : Env → Party → List ℕ → Bool
unfolding can_use_shared_experience
all_can_use env party [] = true
all_can_use env party (p ∷ ps) = can_use_shared_experience env party p && all_can_use env party ps

unfoldable pub can_enable_shared_experience : Env → Party → Bool
unfolding all_can_use
can_enable_shared_experience env party =
    can_use_shared_experience env party party.leader && all_can_use env party party.member_list

unfoldable pub update_shared_experience : Env → Party → Party
update_shared_experience env party =
    if party.shared_exp_active
    then record party { shared_exp_enabled = can_enable_shared_experience env party }
    else party

unfoldable pub set_shared_experience : Env → Party → ℕ → Bool → Bool × Party
set_shared_experience env party p active =
    if not (party.leader == p)
    then (false, party)
    else if (party.shared_exp_active && active) || (not party.shared_exp_active && not active)
    then (true, party)
    else (let party' = record party { shared_exp_active = active } in
        (if active
          then (
            true,
            record party' { shared_exp_enabled = can_enable_shared_experience env party' },
          )
          else (true, party')))

unfoldable pub update_player_ticks : Env → Party → ℕ → ℕ → Party
unfolding update_shared_experience
update_player_ticks env party p points =
    if not (points == 0) && not (env.not_gain_in_fight p)
    then update_shared_experience env
        (record party { ticks_map = update p (some env.time) party.ticks_map })
    else party

unfoldable pub clear_player_points : Env → Party → ℕ → Party
unfolding update_shared_experience
clear_player_points env party p = elim (party.ticks_map p) [
  | none ↦ party
  | some ticks ↦
      update_shared_experience env (record party { ticks_map = update p none party.ticks_map })
]
