-- ===== src/Party/Sharing.antt =====
-- When `canEnableSharedExperience` of src/party.cpp holds.
use zenonia.Base.{
  ℕ, ◌+◌, ◌*◌, ◌/◌, ◌≡◌, ◌≤◌, ◌↔◌, refl, sym, true, false, ◌||◌, List, [], ◌∷◌, ltb, if◌then◌else◌,
  arith, Bool-cases, inl, inr, ◌⊎◌,
}
use zenonia.Position.{are_in_range}
use zenonia.Party.{
  Party, Env, contains, is_empty, highest_level, is_active, can_use_shared_experience, all_can_use,
  can_enable_shared_experience,
}

highest_level-le_self : (env : Env) (best : ℕ) (ps : List ℕ) → best ≤ highest_level env best ps
unfolding highest_level
highest_level-le_self env best [] = omega arith
highest_level-le_self env best (p ∷ ps) =
    ground (arith, highest_level-le_self env best ps, highest_level-le_self env (env.level p) ps)

highest_level-le :
    (env : Env) (best a : ℕ) (ps : List ℕ)
    → contains a ps ≡ true
    → env.level a ≤ highest_level env best ps
unfolding highest_level contains
highest_level-le env best a [] h = cc
highest_level-le env best a (p ∷ ps) h =
    let best' = if ltb best (env.level p) then env.level p else best in
    ground (arith, highest_level-le_self env best' ps, highest_level-le env best' a ps)

-- The highest level is that of a player.
highest_level_attained :
    (env : Env) (best : ℕ) (ps : List ℕ)
    → (highest_level env best ps ≡ best)
      ⊎ ((a : ℕ) × (contains a ps ≡ true) × (env.level a ≡ highest_level env best ps))
unfolding highest_level contains
highest_level_attained env best [] = inl refl
highest_level_attained env best (p ∷ ps) =
    let best' = if ltb best (env.level p) then env.level p else best in
    elim (highest_level_attained env best' ps) [
      | inr (a, there, e) ↦ inr (a, ground (arith, there), e)
      | inl e ↦ elim (Bool-cases (ltb best (env.level p))) [
        | inl more ↦ inr (p, ground arith, ground (arith, e, more))
        | inr less ↦ inl (ground (arith, e, less))
      ]
    ]

-- The leader or a member.
abbrev pub IsIn : ℕ → Party → Type 0
IsIn p party = contains p (party.leader ∷ party.member_list) ≡ true

-- What the rules ask of one player: two thirds of the level of each other one, near the leader, active.
abbrev pub IsFit : Env → Party → ℕ → Type 0
IsFit env party p =
    ((a : ℕ) → IsIn a party → 2 * env.level a ≤ 3 * env.level p)
    × (are_in_range 30 30 1 (env.position party.leader) (env.position p) ≡ true)
    × ((env.not_gain_in_fight p || is_active env (party.ticks_map p)) ≡ true)

module _ (env : Env) (party : Party) where
  best : ℕ
  best = highest_level env (env.level party.leader) party.member_list

  level-le-best : (a : ℕ) → IsIn a party → env.level a ≤ best
  unfolding best contains
  level-le-best a h = ground (
    arith,
    h,
    highest_level-le env (env.level party.leader) a party.member_list,
    highest_level-le_self env (env.level party.leader) party.member_list,
  )

  best_attained : (a : ℕ) × IsIn a party × (env.level a ≡ best)
  unfolding best contains
  best_attained = elim (highest_level_attained env (env.level party.leader) party.member_list) [
    | inl e ↦ (party.leader, ground arith, sym e)
    | inr (a, there, e) ↦ (a, ground (arith, there), e)
  ]

  -- The conditions in the order of the code.
  conditions :
      (p : ℕ)
      → (can_use_shared_experience env party p ≡ true) ↔ (
          (is_empty party.member_list ≡ false)
          × ((best * 2 + 2) / 3 ≤ env.level p)
          × (are_in_range 30 30 1 (env.position party.leader) (env.position p) ≡ true)
          × ((env.not_gain_in_fight p || is_active env (party.ticks_map p)) ≡ true))
  unfolding can_use_shared_experience best
  conditions p = (λ h. ground (arith, h), λ h. ground (arith, h))

  can_use_lem :
      (p : ℕ)
      → (can_use_shared_experience env party p ≡ true)
        ↔ ((is_empty party.member_list ≡ false) × IsFit env party p)
  can_use_lem p = (
    λ h.
        let (members, level, near, lately) = (conditions p).0 h in
        (members, (λ a there. omega (arith, level, level-le-best a there), near, lately)),
    λ h.
        let (members, (level, near, lately)) = h in
        let (a, there, e) = best_attained in
        (conditions p).1 (members, omega (arith, level a there, e), near, lately),
  )

  all_can_use_lem :
      (ps : List ℕ)
      → (all_can_use env party ps ≡ true)
        ↔ ((p : ℕ) → contains p ps ≡ true → can_use_shared_experience env party p ≡ true)
  unfolding all_can_use contains
  all_can_use_lem [] = (λ h p there. cc, λ h. refl)
  all_can_use_lem (x ∷ ps) = (
    λ h p there.
        ground
          (arith, h, there, (all_can_use_lem ps).0, (all_can_use_lem ps).0 (ground (arith, h)) p),
    λ h. ground (arith, h x, (all_can_use_lem ps).1 (λ p there. h p (ground (arith, there)))),
  )

  leader-IsIn : IsIn party.leader party
  unfolding contains
  leader-IsIn = ground arith

  -- Shared experience can be enabled exactly when there is a member and everyone in the party, the
  -- leader included, has two thirds of the level of each other one, is near the leader and is active.
  pub can_enable_shared_experience_iff :
      (can_enable_shared_experience env party ≡ true)
      ↔ ((is_empty party.member_list ≡ false) × ((p : ℕ) → IsIn p party → IsFit env party p))
  unfolding can_enable_shared_experience all_can_use
  can_enable_shared_experience_iff =
      let all = all_can_use_lem (party.leader ∷ party.member_list) in
      (
        λ h. (
          ((can_use_lem party.leader).0 (all.0 h party.leader leader-IsIn)).0,
          λ p there. ((can_use_lem p).0 (all.0 h p there)).1,
        ),
        λ h. all.1 (λ p there. (can_use_lem p).1 (h.0, h.1 p there)),
      )
