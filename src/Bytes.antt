-- ===== src/Bytes.antt =====
-- Machine integers as bytes, and a byte buffer as memory: the `memcpy` of a `uintN_t` that
-- src/networkmessage.h, src/outputmessage.h, src/protocol.cpp and src/fileloader.h make. The host
-- is little-endian, as the wire and file formats of these files require.
pub mod Regions
use native.Mathlib.Nat.{pow-suc}
use zenonia.Base.{
  ℕ, zero, suc, ◌+◌, ◌*◌, ◌/◌, ◌%◌, ◌^◌, ◌≤◌, ◌<◌, ◌≡◌, refl, ap, ◌⊎◌, List, [], ◌∷◌, ◌++◌, arith,
  ◌==◌, if◌then◌else◌, length, All,
}

-- The `w` bytes of a number, lowest first.
unfoldable pub le_bytes : ℕ → ℕ → List ℕ
le_bytes zero v = []
le_bytes (suc w) v = (v % 256) ∷ le_bytes w (v / 256)

unfoldable pub from_le : List ℕ → ℕ
from_le [] = 0
from_le (b ∷ bs) = b + 256 * from_le bs

abbrev pub IsByte : ℕ → Type 0
IsByte b = b < 256

pub length-le_bytes : (w v : ℕ) → length (le_bytes w v) ≡ w
unfolding le_bytes
length-le_bytes zero v = refl
length-le_bytes (suc w) v = ap suc (length-le_bytes w (v / 256))

pub le_bytes-IsByte : (w v : ℕ) → All IsByte (le_bytes w v)
unfolding le_bytes
le_bytes-IsByte zero v = tt
le_bytes-IsByte (suc w) v = (omega arith, le_bytes-IsByte w (v / 256))

pub from_le-le_bytes : (w v : ℕ) → v < 256 ^ w → from_le (le_bytes w v) ≡ v
unfolding le_bytes from_le
from_le-le_bytes zero v h = omega arith
from_le-le_bytes (suc w) v h =
    let fits : v / 256 < 256 ^ w = omega (arith, pow-suc 256 w) in
    omega (arith, from_le-le_bytes w (v / 256) fits)

pub from_le-lt : (bs : List ℕ) → All IsByte bs → from_le bs < 256 ^ length bs
unfolding from_le
from_le-lt [] h = omega arith
from_le-lt (b ∷ bs) h = omega (arith, from_le-lt bs h.1, pow-suc 256 (length bs))

pub le_bytes-from_le : (bs : List ℕ) → All IsByte bs → le_bytes (length bs) (from_le bs) ≡ bs
unfolding le_bytes from_le
le_bytes-from_le [] h = refl
le_bytes-from_le (b ∷ bs) h =
    let low : (b + 256 * from_le bs) % 256 ≡ b = omega arith in
    let high : (b + 256 * from_le bs) / 256 ≡ from_le bs = omega arith in
    rw (low, high, le_bytes-from_le bs h.1)

-- A buffer: the byte at each offset.
abbrev pub Memory : Type 0
Memory = ℕ → ℕ

unfoldable pub read : Memory → ℕ → ℕ → List ℕ
read m p zero = []
read m p (suc n) = m p ∷ read m (p + 1) n

unfoldable pub poke : Memory → ℕ → ℕ → Memory
poke m p b i = if i == p then b else m i

unfoldable pub write : Memory → ℕ → List ℕ → Memory
unfolding poke
write m p [] = m
write m p (b ∷ bs) = write (poke m p b) (p + 1) bs

pub length-read : (m : Memory) (p n : ℕ) → length (read m p n) ≡ n
unfolding read
length-read m p zero = refl
length-read m p (suc n) = ap suc (length-read m (p + 1) n)

-- A write changes its own bytes and no others.
pub write_outside :
    (m : Memory) (p : ℕ) (bs : List ℕ) (i : ℕ)
    → (i < p) ⊎ (p + length bs ≤ i)
    → write m p bs i ≡ m i
unfolding write
write_outside m p [] i h = refl
write_outside m p (b ∷ bs) i h =
    ground (arith, write_outside (poke m p b) (p + 1) bs i (omega arith))

pub read-ext :
    (m m' : Memory) (p n : ℕ)
    → ((i : ℕ) → p ≤ i → i < p + n → m i ≡ m' i)
    → read m p n ≡ read m' p n
unfolding read
read-ext m m' p zero h = refl
read-ext m m' p (suc n) h = ground (
  arith,
  h p (omega arith) (omega arith),
  read-ext m m' (p + 1) n (λ i lo hi. h i (omega arith) (omega arith)),
)

pub read-write_outside :
    (m : Memory) (p n q : ℕ) (bs : List ℕ)
    → (p + n ≤ q) ⊎ (q + length bs ≤ p)
    → read (write m q bs) p n ≡ read m p n
read-write_outside m p n q bs h = read-ext _ _ p n (λ i lo hi. write_outside m q bs i (omega arith))

pub read-write_self : (m : Memory) (p : ℕ) (bs : List ℕ) → read (write m p bs) p (length bs) ≡ bs
unfolding read write
read-write_self m p [] = refl
read-write_self m p (b ∷ bs) = ground (
  arith,
  write_outside (poke m p b) (p + 1) bs p (omega arith),
  read-write_self (poke m p b) (p + 1) bs,
)

pub write-append :
    (m : Memory) (p : ℕ) (xs bs : List ℕ)
    → write m p (xs ++ bs) ≡ write (write m p xs) (p + length xs) bs
unfolding write
write-append m p [] bs = let e : p + 0 ≡ p = omega arith in rw e
write-append m p (a ∷ xs) bs =
    let shift : p + suc (length xs) ≡ p + 1 + length xs = omega arith in
    rw (shift, write-append (poke m p a) (p + 1) xs bs)

pub read-add : (m : Memory) (p a b : ℕ) → read m p (a + b) ≡ read m p a ++ read m (p + a) b
unfolding read
read-add m p zero b = ground arith
read-add m p (suc a) b =
    let shift : p + suc a ≡ p + 1 + a = omega arith in
    let count : suc a + b ≡ suc (a + b) = omega arith in
    rw (count, shift) (ap (λ t. m p ∷ t) (read-add m (p + 1) a b))

-- What `get<T>()` and `memcpy(&v, …)` give after `memcpy(…, &v, sizeof(T))`.
pub from_le-read-write :
    (m : Memory) (p w v : ℕ) → v < 256 ^ w → from_le (read (write m p (le_bytes w v)) p w) ≡ v
from_le-read-write m p w v h =
    cc (length-le_bytes w v, read-write_self m p (le_bytes w v), from_le-le_bytes w v h)
