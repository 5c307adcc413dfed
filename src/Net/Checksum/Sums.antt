-- ===== src/Net/Checksum/Sums.antt =====
-- The chunks of `adlerChecksum` of src/tools.cpp, and the sums that are reduced once at the end.
use Prim.Native.Nat.{bit_or}
use zenonia.Base.{
  ℕ, zero, suc, ◌+◌, ◌*◌, ◌%◌, ◌^◌, ◌<◌, ◌≤◌, ◌≡◌, refl, sym, ap, false, ◌∙◌, List, [], ◌∷◌, ◌++◌,
  length, All, take, drop, arith, ltb, take-append-drop, length-take-le, length-drop, All-take,
  All-drop,
}
use zenonia.Bytes.{IsByte}
use zenonia.Net.Message.{max_size}
use zenonia.Net.Checksum.{adler, sum_chunk, sum_chunks, adler_checksum}

-- The sums of the definition of Adler-32, over the bytes in order and without any reduction.
unfoldable pub exact_sums : List ℕ → ℕ × ℕ → ℕ × ℕ
exact_sums [] (a, b) = (a, b)
exact_sums (d ∷ ds) (a, b) = exact_sums ds (a + d, b + (a + d))

-- The most that `n` more bytes add to the second sum.
worst : ℕ → ℕ → ℕ
worst zero a = 0
worst (suc n) a = a + 255 + worst n (a + 255)

worst_mono : (n : ℕ) (a a' : ℕ) → a ≤ a' → worst n a ≤ worst n a'
unfolding worst
worst_mono zero a a' h = omega arith
worst_mono (suc n) a a' h = omega (arith, worst_mono n (a + 255) (a' + 255) (omega arith))

worst_more : (n m : ℕ) (a : ℕ) → n ≤ m → worst n a ≤ worst m a
unfolding worst
worst_more zero m a h = omega arith
worst_more (suc n) zero a h = absurd (omega arith)
worst_more (suc n) (suc m) a h = omega (arith, worst_more n m (a + 255) (omega arith))

-- A full chunk behind two reduced sums: the largest number of bytes for which this holds.
worst_chunk : 65520 + worst 5552 65520 < 2 ^ 32
unfolding worst
worst_chunk = omega arith

chunk_fits :
    (ds : List ℕ) (a b : ℕ)
    → All IsByte ds
    → b + worst (length ds) a < 2 ^ 32
    → sum_chunk ds (a, b) ≡ exact_sums ds (a, b)
unfolding sum_chunk exact_sums worst
chunk_fits [] a b h k = refl
chunk_fits (d ∷ ds) a b h k =
    let mono = worst_mono (length ds) (a + d) (a + 255) (omega (arith, h.0)) in
    let ea : (a + d) % 2 ^ 32 ≡ a + d = omega (arith, h.0) in
    let eb : (b + (a + d)) % 2 ^ 32 ≡ b + (a + d) = omega (arith, h.0) in
    rw (ea, eb) (chunk_fits ds (a + d) (b + (a + d)) h.1 (omega (arith, h.0, mono)))

exact_sums-append :
    (xs ys : List ℕ) (s : ℕ × ℕ) → exact_sums (xs ++ ys) s ≡ exact_sums ys (exact_sums xs s)
unfolding exact_sums
exact_sums-append [] ys (a, b) = refl
exact_sums-append (x ∷ xs) ys (a, b) = exact_sums-append xs ys (a + x, b + (a + x))

abbrev reduce : ℕ × ℕ → ℕ × ℕ
reduce (a, b) = (a % adler, b % adler)

exact_sums_mod :
    (ds : List ℕ) (a b a' b' : ℕ)
    → a % adler ≡ a' % adler
    → b % adler ≡ b' % adler
    → reduce (exact_sums ds (a, b)) ≡ reduce (exact_sums ds (a', b'))
unfolding exact_sums
exact_sums_mod [] a b a' b' ea eb = ground arith
exact_sums_mod (d ∷ ds) a b a' b' ea eb =
    exact_sums_mod ds (a + d) (b + (a + d)) (a' + d) (b' + (a' + d)) (omega arith) (omega arith)

-- One round of the loop, on sums that are reduced.
round_lem :
    (all : List ℕ) (a b : ℕ)
    → All IsByte all
    → a < adler
    → b < adler
    → sum_chunk (take 5552 all) (a, b) ≡ exact_sums (take 5552 all) (a, b)
round_lem all a b h la lb =
    let n = length-take-le 5552 all in
    let more = worst_more (length (take 5552 all)) 5552 a n in
    let mono = worst_mono 5552 a 65520 (omega arith) in
    chunk_fits (take 5552 all) a b (All-take IsByte 5552 all h)
      (omega (arith, more, mono, worst_chunk))

rejoin :
    (all : List ℕ) (s : ℕ × ℕ)
    → reduce (exact_sums (drop 5552 all) (reduce (exact_sums (take 5552 all) s)))
      ≡ reduce (exact_sums all s)
rejoin all s =
    let (a, b) = exact_sums (take 5552 all) s in
    exact_sums_mod (drop 5552 all) (a % adler) (b % adler) a b (omega arith) (omega arith)
    ∙ ap reduce (rw take-append-drop at (sym (exact_sums-append (take 5552 all) (drop 5552 all) s)))

sum_chunks-cons :
    (fuel d : ℕ) (ds : List ℕ) (s : ℕ × ℕ)
    → sum_chunks (suc fuel) (d ∷ ds) s
      ≡ sum_chunks fuel (drop 5552 (d ∷ ds)) (reduce (sum_chunk (take 5552 (d ∷ ds)) s))
unfolding sum_chunks
sum_chunks-cons fuel d ds s = refl

sum_chunks-nil : (fuel a b : ℕ) → a < adler → b < adler → sum_chunks fuel [] (a, b) ≡ reduce (a, b)
unfolding sum_chunks
sum_chunks-nil zero a b la lb = ground arith
sum_chunks-nil (suc fuel) a b la lb = ground arith

exact_sums-nil : (s : ℕ × ℕ) → exact_sums [] s ≡ s
unfolding exact_sums
exact_sums-nil s = refl

pub sum_chunks_lem :
    (fuel : ℕ) (ds : List ℕ) (a b : ℕ)
    → All IsByte ds
    → length ds ≤ fuel
    → a < adler
    → b < adler
    → sum_chunks fuel ds (a, b) ≡ reduce (exact_sums ds (a, b))
sum_chunks_lem fuel [] a b h f la lb =
    sum_chunks-nil fuel a b la lb ∙ ap reduce (sym (exact_sums-nil (a, b)))
sum_chunks_lem zero (d ∷ ds) a b h f la lb = absurd (omega arith)
sum_chunks_lem (suc fuel) (d ∷ ds) a b h f la lb =
    let all = d ∷ ds in
    let (a', b') = exact_sums (take 5552 all) (a, b) in
    let ih =
      sum_chunks_lem fuel (drop 5552 all) (a' % adler) (b' % adler) (All-drop IsByte 5552 all h)
        (omega (arith, length-drop 5552 all)) (omega arith) (omega arith) in
    sum_chunks-cons fuel d ds (a, b)
    ∙ ap (λ (s : ℕ × ℕ). sum_chunks fuel (drop 5552 all) (reduce s)) (round_lem all a b h la lb)
    ∙ ih
    ∙ rejoin all (a, b)

-- The checksum of data that fits a message is that of Adler-32: both sums over all the bytes, each
-- modulo 65521, the second in the upper half; the chunked 32-bit loop never overflows.
pub adler_checksum-exact_sums :
    (ds : List ℕ)
    → All IsByte ds
    → length ds ≤ max_size
    → let (a, b) = exact_sums ds (1, 0) in
      adler_checksum ds ≡ bit_or (b % adler * 65536) (a % adler)
unfolding adler_checksum
adler_checksum-exact_sums ds h fit =
    let (a, b) = exact_sums ds (1, 0) in
    let high : b % adler * 65536 % 2 ^ 32 ≡ b % adler * 65536 = omega arith in
    let short : ltb max_size (length ds) ≡ false = ground arith in
    rw (sum_chunks_lem (length ds) ds 1 0 h (omega arith) (omega arith) (omega arith), short, high)
