-- ===== src/Tests/LevelsTests.antt =====
-- The levels of src/player.cpp on a young player.
use zenonia.Base.{ℕ, ◌%◌, ◌≡◌, refl, ◌*◌, inl, arith}
use zenonia.Levels.{
  Player, Vocation, get_exp_for_level, below_level, add_experience, remove_experience, climb,
  advance, restore_stats, set_percent, get_percent_level,
}
use zenonia.Levels.Climb.{Fits, add_experience-Fits}
use zenonia.Levels.Skills.{
  Skill, add_skill_advance, raise_all, raise, settle, IsShort, add_skill_advance-IsShort,
}
use zenonia.Levels.Fall.{remove_experience-Fits}

abbrev knight : Vocation
knight = record { hp_gain = 15; mana_gain = 5; cap_gain = 25 }

abbrev eighth : Player
eighth = record {
  level = 8;
  experience = 4200;
  level_percent = 0;
  health = 185;
  health_max = 185;
  mana = 90;
  mana_max = 90;
  capacity = 470;
}

level_8 : get_exp_for_level 8 ≡ 4200
unfolding get_exp_for_level below_level
level_8 = refl

level_100 : get_exp_for_level 100 ≡ 15694800
unfolding get_exp_for_level below_level
level_100 = refl

eighth-Fits : Fits eighth
unfolding get_exp_for_level below_level
eighth-Fits = (omega arith, inl (omega arith))

abbrev tenth : Player
tenth = record {
  level = 10;
  experience = 9400;
  level_percent = 2;
  health = 215;
  health_max = 215;
  mana = 100;
  mana_max = 100;
  capacity = 520;
}

two_levels : add_experience (λ e. e) knight 5200 eighth ≡ tenth
unfolding add_experience climb advance get_exp_for_level below_level restore_stats set_percent
    get_percent_level
two_levels = refl

add_experience-Fits_example : Fits (add_experience (λ e. e) knight 5200 eighth)
add_experience-Fits_example =
    add_experience-Fits (λ e. e) knight 5200 eighth (omega arith) eighth-Fits

remove_experience-Fits_example : Fits (remove_experience (λ e. e) knight 3000 eighth)
remove_experience-Fits_example =
    remove_experience-Fits (λ e. e) knight 3000 eighth (omega arith) (omega arith) (omega arith)
      (omega arith) eighth-Fits

-- A vocation that wants fifty tries more on every level, and a sword skill.
abbrev tries_for : ℕ → ℕ
tries_for level = level % 1000 * 50

abbrev sword : Skill
sword = record { tries = 100; skill_level = 10; percent = 18 }

raised_sword :
    add_skill_advance tries_for (λ n. n) 1100 sword
    ≡ record { tries = 50; skill_level = 12; percent = 7 }
unfolding add_skill_advance raise_all raise settle get_percent_level
raised_sword = refl

add_skill_advance-IsShort_example :
    IsShort tries_for (add_skill_advance tries_for (λ n. n) 1100 sword)
add_skill_advance-IsShort_example =
    add_skill_advance-IsShort tries_for (λ n. n) 1100 sword (λ level. omega arith) (omega arith)
      (inl (omega arith))
