-- ===== src/Levels.antt =====
-- Experience and levels of src/player.h and src/player.cpp: `getExpForLevel`, `getPercentLevel`,
-- `addExperience` and `removeExperience`. An unsigned number wraps at its width; a signed one of 32
-- bits is kept as its bits.
pub mod Climb
pub mod Fall
pub mod Skills
use zenonia.Base.{
  ℕ, zero, suc, ◌+◌, ◌-◌, ◌*◌, ◌/◌, ◌%◌, ◌^◌, Bool, true, false, not, ◌&&◌, ltb, leb, ◌==◌,
  if◌then◌else◌,
}

abbrev pub wrap64 : ℕ → ℕ
wrap64 n = n % 2 ^ 64

abbrev pub wrap32 : ℕ → ℕ
wrap32 n = n % 2 ^ 32

-- `a - b` on 64 and on 32 bits.
abbrev pub minus64 : ℕ → ℕ → ℕ
minus64 a b = wrap64 (a + (2 ^ 64 - b))

abbrev pub minus32 : ℕ → ℕ → ℕ
minus32 a b = wrap32 (a + (2 ^ 32 - b))

-- `lv--` on a signed number, and its conversion to 64 unsigned bits.
unfoldable pub below_level : ℕ → ℕ
below_level level =
    let lv = minus32 level 1 in if ltb lv (2 ^ 31) then lv else lv + (2 ^ 64 - 2 ^ 32)

unfoldable pub get_exp_for_level : ℕ → ℕ
get_exp_for_level level =
    let lv = below_level level in
    wrap64 (minus64 (wrap64 (50 * lv * lv * lv)) (wrap64 (150 * lv * lv)) + wrap64 (400 * lv)) / 3

unfoldable pub get_percent_level : ℕ → ℕ → ℕ
get_percent_level count next_level_count =
    let result = (wrap64 (count * 100) / next_level_count) % 256 in
    if next_level_count == 0 then 0 else if ltb 100 result then 0 else result

-- The fields of a player that the two functions change, and the gains of the vocation.
pub record Player : Type 0 where
  pub level : ℕ
  pub experience : ℕ
  pub level_percent : ℕ
  pub health : ℕ
  pub health_max : ℕ
  pub mana : ℕ
  pub mana_max : ℕ
  pub capacity : ℕ

pub record Vocation : Type 0 where
  pub hp_gain : ℕ
  pub mana_gain : ℕ
  pub cap_gain : ℕ

abbrev pub next_level : ℕ → ℕ
next_level level = wrap32 (level + 1)

-- The body of the loop of `addExperience`.
unfoldable pub advance : Vocation → Player → Player
advance v p = record p {
  level = next_level p.level;
  health_max = wrap32 (p.health_max + v.hp_gain);
  health = wrap32 (p.health + v.hp_gain);
  mana_max = wrap32 (p.mana_max + v.mana_gain);
  mana = wrap32 (p.mana + v.mana_gain);
  capacity = wrap32 (p.capacity + v.cap_gain);
}

-- The loop, on fuel: the player, `currLevelExp` and `nextLevelExp` at its end.
unfoldable pub climb : ℕ → Vocation → Player → ℕ → ℕ → Player × (ℕ × ℕ)
climb zero v p curr next = (p, (curr, next))
climb (suc fuel) v p curr next =
    let p' = advance v p in
    let next' = get_exp_for_level (next_level p'.level) in
    let rest = climb fuel v p' next next' in
    if leb next p.experience
    then if leb next' next then (p', (next, next')) else rest
    else (p, (curr, next))

-- What both functions end with.
unfoldable pub restore_stats : ℕ → Player → Player
restore_stats old_level p =
    if p.level == old_level then p else record p { health = p.health_max; mana = p.mana_max }

unfoldable pub set_percent : ℕ → ℕ → Player → Player
set_percent curr next p = record p {
  level_percent =
      if ltb curr next
      then get_percent_level (minus64 p.experience curr) (minus64 next curr)
      else 0;
}

-- `on_gain` is what the scripts make of the experience. Fuel of one more than the experience is
-- enough, since the experience for the level grows with every turn of the loop and stays below it.
unfoldable pub add_experience : (ℕ → ℕ) → Vocation → ℕ → Player → Player
add_experience on_gain v exp p =
    let curr = get_exp_for_level p.level in
    let next = get_exp_for_level (next_level p.level) in
    let exp' = on_gain exp in
    let gained : Player = record p { experience = wrap64 (p.experience + exp') } in
    let (p', (curr', next')) = climb (suc gained.experience) v gained curr next in
    if leb next curr
    then record p { level_percent = 0 }
    else if exp' == 0
    then p
    else set_percent curr' next' (restore_stats p.level p')

-- `std::max<int32_t>(0, a - b)`
unfoldable pub minus_gain : ℕ → ℕ → ℕ
minus_gain a b = let d = minus32 a b in if ltb d (2 ^ 31) then d else 0

-- The body of the loop of `removeExperience`.
unfoldable pub retreat : Vocation → Player → Player
retreat v p = record p {
  level = p.level - 1;
  health_max = minus_gain p.health_max v.hp_gain;
  mana_max = minus_gain p.mana_max v.mana_gain;
  capacity = minus_gain p.capacity v.cap_gain;
}

-- The loop, on the level as fuel, and `currLevelExp` at its end.
unfoldable pub fall : ℕ → Vocation → Player → ℕ → Player × ℕ
fall zero v p curr = (p, curr)
fall (suc fuel) v p curr =
    let p' = retreat v p in
    let rest = fall fuel v p' (get_exp_for_level p'.level) in
    if ltb 1 p.level && ltb p.experience curr then rest else (p, curr)

-- `std::max<int64_t>(0, experience - exp)`
unfoldable pub lose : ℕ → ℕ → ℕ
lose experience exp = let d = minus64 experience exp in if ltb d (2 ^ 63) then d else 0

unfoldable pub remove_experience : (ℕ → ℕ) → Vocation → ℕ → Player → Player
remove_experience on_lose v exp p =
    let exp' = on_lose exp in
    let lost : Player = record p { experience = lose p.experience exp' } in
    let (p', curr) = fall p.level v lost (get_exp_for_level p.level) in
    if p.experience == 0
    then p
    else if exp == 0
    then p
    else if exp' == 0
    then p
    else set_percent curr (get_exp_for_level (next_level p'.level)) (restore_stats p.level p')
