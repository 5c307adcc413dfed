-- ===== src/Net/Checksum.antt =====
-- `adlerChecksum` of src/tools.cpp, in `uint32_t` arithmetic, against the sums that define it.
pub mod Sums
use Prim.Native.Nat.{bit_or}
use zenonia.Base.{
  ℕ, zero, suc, ◌+◌, ◌-◌, ◌*◌, ◌%◌, ◌^◌, ◌<◌, ◌≤◌, ◌≡◌, refl, ap, ◌∙◌, List, [], ◌∷◌, ◌++◌, length,
  All, take, drop, arith, ltb, leb, if◌then◌else◌, Bool-cases, inl, inr,
}
use zenonia.Bytes.{IsByte}
use zenonia.Net.Message.{max_size}

abbrev pub adler : ℕ
adler = 65521

-- `a += *data++; b += a;` over the bytes of a chunk, on `uint32_t`.
unfoldable pub sum_chunk : List ℕ → ℕ × ℕ → ℕ × ℕ
sum_chunk [] (a, b) = (a, b)
sum_chunk (d ∷ ds) (a, b) =
    let a' = (a + d) % 2 ^ 32 in let b' = (b + a') % 2 ^ 32 in sum_chunk ds (a', b')

-- `while (length > 0)`, with fuel: a chunk has at most 5552 bytes.
unfoldable pub sum_chunks : ℕ → List ℕ → ℕ × ℕ → ℕ × ℕ
sum_chunks zero ds s = s
sum_chunks (suc fuel) [] s = s
sum_chunks (suc fuel) (d ∷ ds) s =
    let (a, b) = sum_chunk (take 5552 (d ∷ ds)) s in
    sum_chunks fuel (drop 5552 (d ∷ ds)) (a % adler, b % adler)

unfoldable pub adler_checksum : List ℕ → ℕ
adler_checksum ds =
    let (a, b) = sum_chunks (length ds) ds (1, 0) in
    if ltb max_size (length ds) then 0 else bit_or (b * 65536 % 2 ^ 32) a
