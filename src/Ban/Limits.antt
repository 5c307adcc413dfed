-- ===== src/Ban/Limits.antt =====
-- What the limit on connections of src/ban.cpp refuses, for an address alone.
use zenonia.Base.{
  ℕ, ◌+◌, ◌-◌, ◌*◌, ◌≤◌, ◌<◌, ◌%◌, ◌^◌, ◌≡◌, refl, ap, true, false, none, some, List, [], ◌∷◌, ltb,
  leb, map, length, arith, lt→ltb,
}
use zenonia.Ban.{ConnectBlock, attempt, first_attempt}
use zenonia.Ban.Isolation.{alone}

-- Times that go on, each within a gap of the one before.
abbrev pub Within : ℕ → ℕ → List ℕ → Type 0
Within gap last [] = Unit
Within gap last (time ∷ times) = ((last ≤ time) × (time ≤ last + gap)) × Within gap time times

-- Times of which each comes later than a gap behind the one before.
abbrev pub Apart : ℕ → ℕ → List ℕ → Type 0
Apart gap last [] = Unit
Apart gap last (time ∷ times) = (last + gap < time) × Apart gap time times

attempt_blocked :
    (time : ℕ) (block : ConnectBlock)
    → time < block.block_time
    → block.block_time + 250 < 2 ^ 64
    → attempt time block ≡ (false, record block { block_time = block.block_time + 250 })
unfolding attempt
attempt_blocked time block h b =
    let blocked : ltb time block.block_time ≡ true = lt→ltb time block.block_time h in
    let small : (block.block_time + 250) % 2 ^ 64 ≡ block.block_time + 250 = omega (arith, b) in
    rw (blocked, small)

attempt_late :
    (time : ℕ) (block : ConnectBlock)
    → block.block_time ≤ time
    → block.last_attempt + 5000 < time
    → attempt time block ≡ (true, record block { last_attempt = time; count = 1 })
unfolding attempt
attempt_late time block h late =
    let free : ltb time block.block_time ≡ false = ground (arith, h) in
    let slow : leb (time - block.last_attempt) 5000 ≡ false = ground (arith, late) in
    rw (free, slow)

-- An address that waits more than five seconds each time is never refused.
pub alone-Apart :
    (time : ℕ) (times : List ℕ)
    → Apart 5000 time times
    → alone none (time ∷ times) ≡ map (λ _. true) (time ∷ times)
unfolding alone
alone-Apart time times h = ap (λ l. true ∷ l) (later (first_attempt time) times (omega arith) h)
  where
    later :
        (block : ConnectBlock) (times : List ℕ)
        → block.block_time ≤ block.last_attempt
        → Apart 5000 block.last_attempt times
        → alone (some block) times ≡ map (λ _. true) times
    later block [] b h = refl
    later block (time ∷ times) b (late, h) =
        rw (attempt_late time block (omega (arith, b, late)) late) (
          ap (λ l. true ∷ l)
            (later (record block { last_attempt = time; count = 1 }) times (omega (arith, b, late))
              h))

-- While an address is blocked and tries again within a quarter of a second each time, it stays blocked.
pub alone-Within :
    (block : ConnectBlock) (time : ℕ) (times : List ℕ)
    → time < block.block_time
    → Within 250 time times
    → block.block_time + 250 * length (time ∷ times) < 2 ^ 64
    → alone (some block) (time ∷ times) ≡ map (λ _. false) (time ∷ times)
unfolding alone
alone-Within block time [] h w b = rw (attempt_blocked time block h (omega (arith, b)))
alone-Within block time (next ∷ times) h ((up, soon), w) b =
    rw (attempt_blocked time block h (omega (arith, b))) (
      ap (λ l. false ∷ l)
        (alone-Within (record block { block_time = block.block_time + 250 }) next times
          (omega (arith, h, soon)) w (omega (arith, b))))
