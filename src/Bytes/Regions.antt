-- ===== src/Bytes/Regions.antt =====
-- Regions of a buffer that one piece of code rewrites in place.
use mathlib.Core.Path.{fun_ext}
use zenonia.Base.{
  ℕ, zero, suc, ◌+◌, ◌<◌, ◌≤◌, ◌≡◌, refl, sym, ap, ◌∙◌, ◌⊎◌, inl, inr, List, [], ◌∷◌, arith, length,
  All, ◌==◌, Bool-cases,
}
use zenonia.Bytes.{Memory, IsByte, read, poke, write, write_outside, length-read}

poke_self : (m : Memory) (p : ℕ) → poke m p (m p) ≡ m
unfolding poke
poke_self m p = fun_ext λ i. elim (Bool-cases (i == p)) [
  | inl here ↦ let e : i ≡ p = ground arith in rw e (ground arith)
  | inr away ↦ rw away
]

-- Writing back what was read changes nothing.
pub write-read : (m : Memory) (p n : ℕ) → write m p (read m p n) ≡ m
unfolding read write
write-read m p zero = refl
write-read m p (suc n) =
    ap (λ (f : Memory). write f (p + 1) (read m (p + 1) n)) (poke_self m p) ∙ write-read m (p + 1) n

-- What a write leaves inside its region does not depend on what was there.
pub write_inside :
    (m m' : Memory) (p : ℕ) (bs : List ℕ) (i : ℕ)
    → p ≤ i
    → i < p + length bs
    → write m p bs i ≡ write m' p bs i
unfolding write
write_inside m m' p [] i lo hi = absurd (omega arith)
write_inside m m' p (b ∷ bs) i lo hi = elim (Bool-cases (i == p)) [
  | inl here ↦
      let e : i ≡ p = ground arith in
      ground (
        arith,
        write_outside (poke m p b) (p + 1) bs i (omega arith),
        write_outside (poke m' p b) (p + 1) bs i (omega arith),
      )
  | inr away ↦ write_inside (poke m p b) (poke m' p b) (p + 1) bs i (ground arith) (omega arith)
]

in_or_out : (i p n : ℕ) → ((i < p) ⊎ (p + n ≤ i)) ⊎ ((p ≤ i) × (i < p + n))
in_or_out i p n = ground arith

-- A region written back restores a buffer that differs nowhere else.
pub restore :
    (m m' : Memory) (p n : ℕ)
    → ((i : ℕ) → (i < p) ⊎ (p + n ≤ i) → m' i ≡ m i)
    → write m' p (read m p n) ≡ m
restore m m' p n same = fun_ext λ i. elim (in_or_out i p n) [
  | inl out ↦ write_outside m' p (read m p n) i (rw (length-read m p n) out) ∙ same i out
  | inr (lo, hi) ↦
      write_inside m' m p (read m p n) i lo (rw (length-read m p n) hi)
      ∙ ap (λ (f : Memory). f i) (write-read m p n)
]

pub read-IsByte : (m : Memory) (p n : ℕ) → ((i : ℕ) → m i < 256) → All IsByte (read m p n)
unfolding read
read-IsByte m p zero h = tt
read-IsByte m p (suc n) h = (h p, read-IsByte m (p + 1) n h)

-- Writes to disjoint regions commute.
pub write_comm :
    (m : Memory) (p q : ℕ) (xs ys : List ℕ)
    → p + length xs ≤ q
    → write (write m q ys) p xs ≡ write (write m p xs) q ys
write_comm m p q xs ys h = fun_ext λ i. elim (in_or_out i p (length xs)) [
  | inl out ↦ write_outside (write m q ys) p xs i out ∙ elim (in_or_out i q (length ys)) [
    | inl away ↦
        write_outside m q ys i away
        ∙ sym (write_outside (write m p xs) q ys i away ∙ write_outside m p xs i out)
    | inr (lo, hi) ↦ write_inside m (write m p xs) q ys i lo hi
  ]
  | inr (lo, hi) ↦
      write_inside (write m q ys) m p xs i lo hi
      ∙ sym (write_outside (write m p xs) q ys i (inl (omega arith)))
]

pub write-IsByte :
    (m : Memory) (p : ℕ) (bs : List ℕ)
    → ((i : ℕ) → m i < 256)
    → All IsByte bs
    → (i : ℕ) → write m p bs i < 256
unfolding write poke
write-IsByte m p [] h k i = h i
write-IsByte m p (b ∷ bs) h k i =
    write-IsByte (poke m p b) (p + 1) bs (λ j. ground (arith, h j, k.0)) k.1 i

-- What was read from one buffer and written to another at the same offset.
pub copied : (m m' : Memory) (p n i : ℕ) → p ≤ i → i < p + n → write m' p (read m p n) i ≡ m i
copied m m' p n i lo hi =
    write_inside m' m p (read m p n) i lo (rw (length-read m p n) hi)
    ∙ ap (λ (f : Memory). f i) (write-read m p n)
