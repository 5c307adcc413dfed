-- ===== src/Net/Xtea/Locality.antt =====
-- What the loops of src/protocol.cpp leave in their region depends on that region alone.
use zenonia.Base.{ℕ, zero, suc, ◌+◌, ◌*◌, ◌<◌, ◌≤◌, ◌≡◌, sym, ap, ◌∙◌, ◌⊎◌, inl, inr, arith}
use zenonia.Bytes.{Memory, write}
use zenonia.Bytes.Regions.{write_inside}
use zenonia.Net.Xtea.{Key, decrypt_words, crypt_block, decrypt_buffer}
use zenonia.Net.Xtea.Blocks.{
  Cipher, out, length-out, out-ext, crypt_block-write, crypt_block_outside, blocks, blocks_outside,
  crypt_loop-blocks,
}

-- Two buffers hold the same bytes from `p` to before `q`.
abbrev pub SameOn : ℕ → ℕ → Memory → Memory → Type 0
SameOn p q m m' = (i : ℕ) → p ≤ i → i < q → m i ≡ m' i

crypt_block_same :
    (f : Cipher) (m m' : Memory) (p : ℕ)
    → SameOn p (p + 8) m m'
    → SameOn p (p + 8) (crypt_block f m p) (crypt_block f m' p)
crypt_block_same f m m' p h i lo hi =
    ap (λ (x : Memory). x i) (crypt_block-write f m p)
    ∙ write_inside m m' p (out f m p) i lo (rw length-out hi)
    ∙ ap (λ xs. write m' p xs i) (out-ext f m m' p h)
    ∙ sym (ap (λ (x : Memory). x i) (crypt_block-write f m' p))

blocks_same :
    (n : ℕ) (f : Cipher) (m m' : Memory) (p : ℕ)
    → SameOn p (p + 8 * n) m m'
    → SameOn p (p + 8 * n) (blocks n f m p) (blocks n f m' p)
unfolding blocks
blocks_same zero f m m' p h i lo hi = absurd (omega arith)
blocks_same (suc n) f m m' p h i lo hi = elim (early_or_late i (p + 8)) [
  | inl early ↦
      blocks_outside n f (crypt_block f m p) (p + 8) i (inl early)
      ∙ crypt_block_same f m m' p (λ j l u. h j l (omega arith)) i lo early
      ∙ sym (blocks_outside n f (crypt_block f m' p) (p + 8) i (inl early))
  | inr late ↦
      blocks_same n f (crypt_block f m p) (crypt_block f m' p) (p + 8) later i late (omega arith)
]
  where
    early_or_late : (a b : ℕ) → (a < b) ⊎ (b ≤ a)
    early_or_late a b = omega arith

    later : SameOn (p + 8) (p + 8 + 8 * n) (crypt_block f m p) (crypt_block f m' p)
    later j l u =
        crypt_block_outside f m p j (inr l)
        ∙ h j (omega arith) (omega arith)
        ∙ sym (crypt_block_outside f m' p j (inr l))

pub decrypt_buffer_same :
    (k : Key) (m m' : Memory) (buffer n : ℕ)
    → SameOn buffer (buffer + 8 * n) m m'
    → SameOn buffer
        (buffer + 8 * n)
        (decrypt_buffer k m buffer (8 * n))
        (decrypt_buffer k m' buffer (8 * n))
unfolding decrypt_buffer
decrypt_buffer_same k m m' buffer n h i lo hi =
    let loop = λ (x : Memory).
      crypt_loop-blocks n (8 * n) (decrypt_words k) x buffer 0 (8 * n) (omega arith)
        (omega arith) in
    let e : buffer + 0 ≡ buffer = omega arith in
    ap (λ (x : Memory). x i) (rw e at (loop m))
    ∙ blocks_same n (decrypt_words k) m m' buffer h i lo hi
    ∙ sym (ap (λ (x : Memory). x i) (rw e at (loop m')))
