-- ===== src/Levels/Skills.antt =====
-- Skills, `addSkillAdvance` of src/player.cpp. The tries that a level wants come from the vocation,
-- in floating point, and are an argument; messages and the scripts' events on a new level are left out.
use zenonia.Base.{
  ℕ, zero, suc, ◌+◌, ◌-◌, ◌%◌, ◌^◌, ◌≤◌, ◌<◌, ◌≡◌, refl, sym, arith, ltb, leb, ◌==◌, if◌then◌else◌,
  false, inl, inr, ◌⊎◌, Bool-cases,
}
use zenonia.Levels.{get_percent_level, wrap64, minus64}

pub record Skill : Type 0 where
  pub tries : ℕ
  pub skill_level : ℕ
  pub percent : ℕ

abbrev pub next_skill : ℕ → ℕ
next_skill level = (level + 1) % 2 ^ 16

-- The body of the loop: what is left of the count, and the skill on its next level.
unfoldable pub raise : Skill → Skill
raise s = record { tries = 0; skill_level = next_skill s.skill_level; percent = 0 }

-- The loop, on fuel: the skill, the count that is left, and `currReqTries` and `nextReqTries`.
unfoldable pub raise_all : ℕ → (ℕ → ℕ) → Skill → ℕ → ℕ → ℕ → Skill × (ℕ × (ℕ × ℕ))
raise_all zero req s count curr next = (s, (count, (curr, next)))
raise_all (suc fuel) req s count curr next =
    let left = minus64 count (minus64 next s.tries) in
    let s' = raise s in
    let next' = req (next_skill s'.skill_level) in
    let rest = raise_all fuel req s' left next next' in
    if leb next (wrap64 (s.tries + count))
    then if leb next' next then (s', (0, (next, next'))) else rest
    else (s, (count, (curr, next)))

-- The end: the tries and the percentage.
unfoldable pub settle : Skill → ℕ → ℕ → ℕ → Skill
settle s count curr next =
    let tries = wrap64 (s.tries + count) in
    record s { tries = tries; percent = if ltb curr next then get_percent_level tries next else 0 }

-- `on_gain` is what the scripts make of the count. Fuel of one more than it is enough, since every
-- turn of the loop uses up a try at least.
unfoldable pub add_skill_advance : (ℕ → ℕ) → (ℕ → ℕ) → ℕ → Skill → Skill
add_skill_advance req on_gain count s =
    let curr = req s.skill_level in
    let next = req (next_skill s.skill_level) in
    let count' = on_gain count in
    let (s', (left, (curr', next'))) = raise_all (suc count') req s count' curr next in
    if leb next curr then s else if count' == 0 then s else settle s' left curr' next'

-- The tries fall short of the next level, unless the curve ends.
abbrev pub IsShort : (ℕ → ℕ) → Skill → Type 0
IsShort req s =
    (s.tries < req (next_skill s.skill_level))
    ⊎ (req (next_skill s.skill_level) ≤ req s.skill_level)

-- The state at the end of the loop.
abbrev Raised : (ℕ → ℕ) → Skill × (ℕ × (ℕ × ℕ)) → Type 0
Raised req (s, (count, (curr, next))) =
    (curr ≡ req s.skill_level)
    × (next ≡ req (next_skill s.skill_level))
    × (s.tries + count < 2 ^ 64)
    × ((s.tries + count < next) ⊎ (next ≤ curr))

raise_all-Raised :
    (fuel : ℕ) (req : ℕ → ℕ) (s : Skill) (count curr next : ℕ)
    → count < fuel
    → s.tries + count < 2 ^ 64
    → s.tries < next
    → next < 2 ^ 64
    → ((level : ℕ) → req level < 2 ^ 64)
    → curr ≡ req s.skill_level
    → next ≡ req (next_skill s.skill_level)
    → Raised req (raise_all fuel req s count curr next)
unfolding raise_all raise
raise_all-Raised zero req s count curr next f b short nb rb hc hn = omega (arith, f)
raise_all-Raised (suc fuel) req s count curr next f b short nb rb hc hn =
    let s' = raise s in
    let next' = req (next_skill s'.skill_level) in
    let whole : wrap64 (s.tries + count) ≡ s.tries + count = omega (arith, b) in
    elim (Bool-cases (leb next (s.tries + count))) [
      | inl up ↦
          let enough : next ≤ s.tries + count = ground (arith, up) in
          let want : minus64 next s.tries ≡ next - s.tries = omega (arith, nb, short) in
          let left : minus64 count (next - s.tries) ≡ count - (next - s.tries) =
            omega (arith, b, enough, short) in
          rw (whole, up)
            (elim (Bool-cases (leb next' next)) [
              | inl top ↦ rw top (hn, refl, omega arith, inr (ground (arith, top)))
              | inr more ↦
                  rw (more, want, left)
                    (raise_all-Raised fuel req s' (count - (next - s.tries)) next next'
                      (omega (arith, f, short, enough)) (omega (arith, b)) (ground (arith, more))
                      (rb _) rb hn refl)
            ])
      | inr done ↦ rw (whole, done) (hc, hn, b, inl (ground (arith, done)))
    ]

settle-IsShort :
    (req : ℕ → ℕ) (s : Skill) (count curr next : ℕ)
    → Raised req (s, (count, (curr, next)))
    → IsShort req (settle s count curr next)
unfolding settle
settle-IsShort req s count curr next (hc, hn, b, h) =
    let whole : wrap64 (s.tries + count) ≡ s.tries + count = omega (arith, b) in
    rw (whole, sym hc, sym hn) h

-- A skill whose tries fall short of its next level, unless the curve ends, is such a skill after
-- more tries, if nothing overflows 64 bits.
pub add_skill_advance-IsShort :
    (req on_gain : ℕ → ℕ) (count : ℕ) (s : Skill)
    → ((level : ℕ) → req level < 2 ^ 64)
    → s.tries + on_gain count < 2 ^ 64
    → IsShort req s
    → IsShort req (add_skill_advance req on_gain count s)
unfolding add_skill_advance
add_skill_advance-IsShort req on_gain count s rb b h =
    let curr = req s.skill_level in
    let next = req (next_skill s.skill_level) in
    let count' = on_gain count in
    let (s', (left, (curr', next'))) = raise_all (suc count') req s count' curr next in
    elim (Bool-cases (leb next curr)) [
      | inl top ↦ simp top h
      | inr more ↦ elim (Bool-cases (count' == 0)) [
        | inl nothing ↦ simp (more, nothing) h
        | inr some_count ↦
            simp (more, some_count)
              (settle-IsShort req s' left curr' next' (
                raise_all-Raised (suc count') req s count' curr next (omega arith) b
                  (short_of more h) (rb _) rb refl refl))
      ]
    ]
  where
    short_of :
        leb (req (next_skill s.skill_level)) (req s.skill_level) ≡ false
        → IsShort req s
        → s.tries < req (next_skill s.skill_level)
    short_of more (inl h) = h
    short_of more (inr h) = ground (arith, more, h)
