-- ===== src/Levels/Climb.antt =====
-- The level that `addExperience` of src/player.cpp leaves.
use zenonia.Base.{
  ℕ, zero, suc, ◌+◌, ◌^◌, ◌≤◌, ◌<◌, ◌≡◌, refl, sym, arith, leb, ◌==◌, inl, inr, ◌⊎◌, Bool-cases,
}
use zenonia.Levels.{
  Player, Vocation, get_exp_for_level, next_level, advance, climb, restore_stats, set_percent,
  add_experience, wrap64,
}

-- The level has its experience, and the next one has not, unless the curve ends.
abbrev pub Reached : ℕ → ℕ → ℕ → Type 0
Reached experience curr next = (curr ≤ experience) × ((experience < next) ⊎ (next ≤ curr))

abbrev pub Fits : Player → Type 0
Fits p = Reached p.experience (get_exp_for_level p.level) (get_exp_for_level (next_level p.level))

abbrev Climbed : ℕ → Player × (ℕ × ℕ) → Type 0
Climbed experience (p, (curr, next)) =
    (p.experience ≡ experience)
    × (curr ≡ get_exp_for_level p.level)
    × (next ≡ get_exp_for_level (next_level p.level))
    × Reached experience curr next

-- Enough fuel climbs to the end.
climb-Climbed :
    (fuel : ℕ) (v : Vocation) (p : Player) (curr next : ℕ)
    → p.experience < curr + fuel
    → curr ≡ get_exp_for_level p.level
    → next ≡ get_exp_for_level (next_level p.level)
    → curr ≤ p.experience
    → curr < next
    → Climbed p.experience (climb fuel v p curr next)
unfolding climb advance
climb-Climbed zero v p curr next f hc hn h g = omega (arith, f, h)
climb-Climbed (suc fuel) v p curr next f hc hn h g =
    let p' = advance v p in
    let next' = get_exp_for_level (next_level p'.level) in
    elim (Bool-cases (leb next p.experience)) [
      | inl up ↦ rw up (elim (Bool-cases (leb next' next)) [
        | inl top ↦ rw top (refl, hn, refl, (ground (arith, up), inr (ground (arith, top))))
        | inr more ↦ rw more (
            climb-Climbed fuel v p' next next' (ground (arith, f, g)) hn refl (ground (arith, up))
              (ground (arith, more)))
      ])
      | inr done ↦ rw done (refl, hc, hn, (h, inl (ground (arith, done))))
    ]

pub restore_stats-Fits : (old : ℕ) (p : Player) → Fits p → Fits (restore_stats old p)
unfolding restore_stats
restore_stats-Fits old p h = elim (Bool-cases (p.level == old)) [
  | inl e ↦ simp e h
  | inr e ↦ simp e h
]

pub set_percent-Fits : (curr next : ℕ) (p : Player) → Fits p → Fits (set_percent curr next p)
unfolding set_percent
set_percent-Fits curr next p h = h

Climbed-Fits :
    (p : Player) (experience curr next : ℕ) → Climbed experience (p, (curr, next)) → Fits p
Climbed-Fits p experience curr next (he, hc, hn, r) = rw (he, sym hc, sym hn) r

-- A player whose level fits the experience has such a level after more experience, if the sum does
-- not overflow.
pub add_experience-Fits :
    (on_gain : ℕ → ℕ) (v : Vocation) (exp : ℕ) (p : Player)
    → p.experience + on_gain exp < 2 ^ 64
    → Fits p
    → Fits (add_experience on_gain v exp p)
unfolding add_experience
add_experience-Fits on_gain v exp p small fits =
    let curr = get_exp_for_level p.level in
    let next = get_exp_for_level (next_level p.level) in
    let total = wrap64 (p.experience + on_gain exp) in
    let grows : p.experience ≤ total = omega (arith, small) in
    let gained : Player = record p { experience = total } in
    let (p', (curr', next')) = climb (suc total) v gained curr next in
    elim (Bool-cases (leb next curr)) [
      | inl top ↦ simp top fits
      | inr more ↦ elim (Bool-cases (on_gain exp == 0)) [
        | inl nothing ↦ simp (more, nothing) fits
        | inr some_exp ↦
            simp (more, some_exp)
              (set_percent-Fits curr' next' (restore_stats p.level p') (
                restore_stats-Fits p.level p' (
                  Climbed-Fits p' total curr' next' (
                    climb-Climbed (suc total) v gained curr next (omega arith) refl refl
                      (omega (arith, fits.0, grows)) (ground (arith, more))))))
      ]
    ]
