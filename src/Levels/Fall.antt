-- ===== src/Levels/Fall.antt =====
-- The level that `removeExperience` of src/player.cpp leaves.
use zenonia.Base.{
  ℕ, zero, suc, ◌-◌, ◌^◌, ◌≤◌, ◌<◌, ◌≡◌, refl, ◌∙◌, ap, arith, ltb, ◌==◌, inl, inr, ◌⊎◌, Bool-cases,
}
use zenonia.Levels.{
  below_level, Player, Vocation, get_exp_for_level, next_level, retreat, fall, restore_stats,
  remove_experience, lose,
}
use zenonia.Levels.Climb.{Fits, restore_stats-Fits, set_percent-Fits}

-- The first level wants no experience.
first_level : get_exp_for_level 1 ≡ 0
unfolding get_exp_for_level below_level
first_level = refl

abbrev Under : Player → Type 0
Under p =
    (p.experience < get_exp_for_level (next_level p.level))
    ⊎ (get_exp_for_level (next_level p.level) ≤ get_exp_for_level p.level)

next-minus : (level : ℕ) → 1 < level → level < 2 ^ 32 → next_level (level - 1) ≡ level
next-minus level h b = omega (arith, h, b)

-- The loop stops where the level has its experience again.
fall-Fits :
    (fuel : ℕ) (v : Vocation) (p : Player)
    → p.level ≤ fuel
    → 1 ≤ p.level
    → p.level < 2 ^ 32
    → Under p
    → let (p', curr) = fall fuel v p (get_exp_for_level p.level) in
      Fits p' × (curr ≡ get_exp_for_level p'.level)
unfolding fall retreat
fall-Fits zero v p f pos b under = omega (arith, f, pos)
fall-Fits (suc fuel) v p f pos b under =
    let curr = get_exp_for_level p.level in
    elim (Bool-cases (ltb 1 p.level)) [
      | inl above ↦ elim (Bool-cases (ltb p.experience curr)) [
        | inl short ↦
            simp (above, short)
              (fall-Fits fuel v (retreat v p) (ground (arith, f, above)) (ground (arith, above))
                (omega (arith, b))
                (inl (rw (next-minus p.level (ground (arith, above)) b) (ground (arith, short)))))
        | inr enough ↦ simp (above, enough) ((ground (arith, enough), under), refl)
      ]
      | inr first ↦
          let one : p.level ≡ 1 = ground (arith, first, pos) in
          let none_wanted : curr ≡ 0 = ap get_exp_for_level one ∙ first_level in
          simp first ((omega (arith, none_wanted), under), refl)
    ]

lose-minus :
    (experience exp : ℕ)
    → experience < 2 ^ 63
    → exp ≤ 2 ^ 63
    → lose experience exp ≡ experience - exp
unfolding lose
lose-minus experience exp h b = ground (arith, h, b)

-- A player whose level fits the experience has such a level after a loss, and at least level 1.
pub remove_experience-Fits :
    (on_lose : ℕ → ℕ) (v : Vocation) (exp : ℕ) (p : Player)
    → p.experience < 2 ^ 63
    → on_lose exp ≤ 2 ^ 63
    → 1 ≤ p.level
    → p.level < 2 ^ 32
    → Fits p
    → Fits (remove_experience on_lose v exp p)
unfolding remove_experience
remove_experience-Fits on_lose v exp p small bounded pos b fits =
    let left = lose p.experience (on_lose exp) in
    let less : left ≤ p.experience =
      omega (arith, lose-minus p.experience (on_lose exp) small bounded) in
    let lost : Player = record p { experience = left } in
    let (p', curr) = fall p.level v lost (get_exp_for_level p.level) in
    let next = get_exp_for_level (next_level p'.level) in
    let under : Under lost = still less fits.1 in
    elim (Bool-cases (p.experience == 0)) [
      | inl e ↦ simp e fits
      | inr e ↦ elim (Bool-cases (exp == 0)) [
        | inl e' ↦ simp (e, e') fits
        | inr e' ↦ elim (Bool-cases (on_lose exp == 0)) [
          | inl e'' ↦ simp (e, e', e'') fits
          | inr e'' ↦
              simp (e, e', e'')
                (set_percent-Fits curr next (restore_stats p.level p') (
                  restore_stats-Fits p.level p'
                    (fall-Fits p.level v lost (omega arith) pos b under).0))
        ]
      ]
    ]
  where
    still :
        {left experience next curr : ℕ}
        → left ≤ experience
        → (experience < next) ⊎ (next ≤ curr)
        → (left < next) ⊎ (next ≤ curr)
    still l (inl h) = inl (omega (arith, l, h))
    still l (inr h) = inr h
