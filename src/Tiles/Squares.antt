-- ===== src/Tiles/Squares.antt =====
-- The squares of 8 by 8 tiles that the bits of the coordinates name, in src/map.cpp.
use zenonia.Base.{
  ℕ, zero, suc, ◌+◌, ◌*◌, ◌%◌, ◌<◌, ◌≡◌, refl, ap, ◌∙◌, true, ◌&&◌, ◌==◌, arith, Bool-cases, inl,
  inr,
}
use zenonia.Tiles.{top_bit, double}
use zenonia.Tiles.Growth.{same_bits}

-- A number of 16 bits, and a power of two.
low : ℕ → ℕ
low x = x % 65536

pow2 : ℕ → ℕ
pow2 zero = 1
pow2 (suc n) = 2 * pow2 n

-- The top bit moves out.
lead :
    (n x x' : ℕ)
    → same_bits (suc n) x x' ≡ true
    → (low (double x) + 2 * low x' ≡ low (double x') + 2 * low x)
      × (same_bits n (double x) (double x') ≡ true)
unfolding same_bits top_bit low
lead n x x' h = ground (arith, h)

scaled :
    (p a b c d : ℕ) → a + 2 * b ≡ c + 2 * d → p * a < p * c + 65536 → 2 * p * d < 2 * p * b + 65536
scaled p a b c d e h = grind (arith, ap (λ (t : ℕ). p * t) e)

-- Numbers that agree in their first `n` bits are less than `2 ^ (16 - n)` apart.
near : (n x x' : ℕ) → same_bits n x x' ≡ true → pow2 n * low x < pow2 n * low x' + 65536
unfolding pow2 low
near zero x x' h = omega arith
near (suc n) x x' h =
    let led = lead n x x' h in
    scaled (pow2 n) (low (double x)) (low x') (low (double x')) (low x) led.0
      (near n (double x) (double x') led.1)

same_bits_sym : (n x x' : ℕ) → same_bits n x x' ≡ same_bits n x' x
unfolding same_bits
same_bits_sym zero x x' = refl
same_bits_sym (suc n) x x' = ground (arith, same_bits_sym n (double x) (double x'))

same_bits_refl : (n x : ℕ) → same_bits n x x ≡ true
unfolding same_bits
same_bits_refl zero x = refl
same_bits_refl (suc n) x = ground (arith, same_bits_refl n (double x))

same_coordinate :
    (x x' : ℕ) → x < 65536 → x' < 65536 → same_bits 13 x x' ≡ true → x' % 8 ≡ x % 8 → x' ≡ x
unfolding low pow2
same_coordinate x x' fits fits' e low_bits =
    omega (arith, near 13 x x' e, near 13 x' x (same_bits_sym 13 x' x ∙ e))

-- A coordinate is its thirteen leading bits and the offset in its square.
pub same_coordinate_iff :
    (x x' : ℕ) → x < 65536 → x' < 65536 → (same_bits 13 x x' && (x' % 8 == x % 8)) ≡ (x' == x)
same_coordinate_iff x x' fits fits' = elim (Bool-cases (x' == x)) [
  | inl e ↦
      let same : x' ≡ x = ground (arith, e) in
      rw e (rw same (rw (same_bits_refl 13 x) (ground arith)))
  | inr e ↦ rw e (ground (arith, e, same_coordinate x x' fits fits'))
]
