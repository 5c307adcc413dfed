-- ===== src/Net/Xtea/Blocks.antt =====
-- The loops over a buffer of src/protocol.cpp undo one another.
use zenonia.Base.{
  ℕ, zero, suc, ◌+◌, ◌*◌, ◌<◌, ◌≤◌, ◌≡◌, refl, sym, ap, ◌∙◌, ◌⊎◌, inl, inr, List, ◌++◌, arith,
  length, length-append, ltb, true,
}
use zenonia.Bytes.{
  Memory, read, write, le_bytes, from_le, length-le_bytes, from_le-le_bytes, from_le-lt,
  le_bytes-from_le, write_outside, write-append, read-write_outside, read-write_self, read-ext,
  length-read, read-add,
}
use zenonia.Bytes.Regions.{restore, write_comm, read-IsByte}
use zenonia.Net.Xtea.{
  word_size, Key, encrypt_words, decrypt_words, crypt_block, crypt_loop, encrypt_buffer,
  decrypt_buffer,
}
use zenonia.Net.Xtea.Rounds.{decrypt_words-encrypt_words, encrypt_words_fit}

abbrev pub Cipher : Type 0
Cipher = ℕ × ℕ → ℕ × ℕ

-- The bytes that one pass writes.
pub out : Cipher → Memory → ℕ → List ℕ
out f m p =
    let (w0, w1) = f (from_le (read m p 4), from_le (read m (p + 4) 4)) in
    le_bytes 4 w0 ++ le_bytes 4 w1

pub length-out : (f : Cipher) (m : Memory) (p : ℕ) → length (out f m p) ≡ 8
unfolding out
length-out f m p =
    let (w0, w1) = f (from_le (read m p 4), from_le (read m (p + 4) 4)) in
    omega (
      arith,
      length-append (le_bytes 4 w0) (le_bytes 4 w1),
      length-le_bytes 4 w0,
      length-le_bytes 4 w1,
    )

pub crypt_block-write :
    (f : Cipher) (m : Memory) (p : ℕ) → crypt_block f m p ≡ write m p (out f m p)
unfolding crypt_block out
crypt_block-write f m p =
    let (w0, w1) = f (from_le (read m p 4), from_le (read m (p + 4) 4)) in
    sym (rw length-le_bytes at (write-append m p (le_bytes 4 w0) (le_bytes 4 w1)))

pub out-ext :
    (f : Cipher) (m m' : Memory) (p : ℕ)
    → ((i : ℕ) → p ≤ i → i < p + 8 → m i ≡ m' i)
    → out f m p ≡ out f m' p
unfolding out
out-ext f m m' p h = rw (
  read-ext m m' p 4 (λ i lo hi. h i lo (omega arith)),
  read-ext m m' (p + 4) 4 (λ i lo hi. h i (omega arith) (omega arith)),
)

pub crypt_block_outside :
    (f : Cipher) (m : Memory) (p i : ℕ) → (i < p) ⊎ (p + 8 ≤ i) → crypt_block f m p i ≡ m i
crypt_block_outside f m p i h =
    rw crypt_block-write (write_outside m p (out f m p) i (rw length-out h))

crypt_block_comm :
    (f g : Cipher) (m : Memory) (p q : ℕ)
    → p + 8 ≤ q
    → crypt_block g (crypt_block f m q) p ≡ crypt_block f (crypt_block g m p) q
crypt_block_comm f g m p q h =
    let near =
      out-ext g (crypt_block f m q) m p
        (λ i lo hi. crypt_block_outside f m q i (inl (omega arith))) in
    let far =
      out-ext f (crypt_block g m p) m q
        (λ i lo hi. crypt_block_outside g m p i (inr (omega arith))) in
    crypt_block-write g (crypt_block f m q) p
    ∙ ap (write (crypt_block f m q) p) near
    ∙ ap (λ (n : Memory). write n p (out g m p)) (crypt_block-write f m q)
    ∙ write_comm m p q (out g m p) (out f m q) (rw length-out h)
    ∙ ap (λ (n : Memory). write n q (out f m q)) (sym (crypt_block-write g m p))
    ∙ ap (write (crypt_block g m p) q) (sym far)
    ∙ sym (crypt_block-write f (crypt_block g m p) q)

abbrev pub IsBytes : Memory → Type 0
IsBytes m = (i : ℕ) → m i < 256

-- `n` passes, each eight bytes behind the one before.
unfoldable pub blocks : ℕ → Cipher → Memory → ℕ → Memory
blocks zero f m p = m
blocks (suc n) f m p = blocks n f (crypt_block f m p) (p + 8)

pub crypt_loop-blocks :
    (n fuel : ℕ) (f : Cipher) (m : Memory) (buffer read_pos len : ℕ)
    → len ≡ read_pos + 8 * n
    → n ≤ fuel
    → crypt_loop fuel f m buffer read_pos len ≡ blocks n f m (buffer + read_pos)
unfolding crypt_loop blocks
crypt_loop-blocks zero zero f m buffer read_pos len e h = refl
crypt_loop-blocks zero (suc fuel) f m buffer read_pos len e h = ground arith
crypt_loop-blocks (suc n) zero f m buffer read_pos len e h = absurd (omega arith)
crypt_loop-blocks (suc n) (suc fuel) f m buffer read_pos len e h =
    let next = crypt_block f m (buffer + read_pos) in
    let ih =
      crypt_loop-blocks n fuel f next buffer (read_pos + 8) len (omega arith) (omega arith) in
    let t : ltb read_pos len ≡ true = ground arith in
    let shift : buffer + (read_pos + 8) ≡ buffer + read_pos + 8 = omega arith in
    rw t (rw shift at ih)

blocks_comm :
    (n : ℕ) (f g : Cipher) (m : Memory) (p q : ℕ)
    → p + 8 ≤ q
    → crypt_block g (blocks n f m q) p ≡ blocks n f (crypt_block g m p) q
unfolding blocks
blocks_comm zero f g m p q h = refl
blocks_comm (suc n) f g m p q h =
    blocks_comm n f g (crypt_block f m q) p (q + 8) (omega arith)
    ∙ ap (λ (x : Memory). blocks n f x (q + 8)) (crypt_block_comm f g m p q h)

out-write :
    (g : Cipher) (m : Memory) (p w0 w1 u0 u1 : ℕ)
    → w0 < word_size
    → w1 < word_size
    → g (w0, w1) ≡ (u0, u1)
    → out g (write (write m p (le_bytes 4 w0)) (p + 4) (le_bytes 4 w1)) p
      ≡ le_bytes 4 u0 ++ le_bytes 4 u1
unfolding out
out-write g m p w0 w1 u0 u1 h0 h1 e =
    let m1 = write m p (le_bytes 4 w0) in
    let low =
      read-write_outside m1 p 4 (p + 4) (le_bytes 4 w1) (inl (omega arith))
      ∙ rw length-le_bytes at (read-write_self m p (le_bytes 4 w0)) in
    let high = rw length-le_bytes at (read-write_self m1 (p + 4) (le_bytes 4 w1)) in
    rw (low, high, from_le-le_bytes 4 w0 h0, from_le-le_bytes 4 w1 h1, e)

le_bytes-read : (m : Memory) (p : ℕ) → IsBytes m → le_bytes 4 (from_le (read m p 4)) ≡ read m p 4
le_bytes-read m p h = rw length-read at (le_bytes-from_le (read m p 4) (read-IsByte m p 4 h))

word_at-lt : (m : Memory) (p : ℕ) → IsBytes m → from_le (read m p 4) < word_size
word_at-lt m p h = rw length-read at (from_le-lt (read m p 4) (read-IsByte m p 4 h))

module _ (f g : Cipher)
    (fit : (v0 v1 : ℕ)
      → v0 < word_size
      → v1 < word_size
      → ((f (v0, v1)).0 < word_size) × ((f (v0, v1)).1 < word_size))
    (undo : (v0 v1 : ℕ) → v0 < word_size → v1 < word_size → g (f (v0, v1)) ≡ (v0, v1)) where
  out_back : (m : Memory) (p : ℕ) → IsBytes m → out g (crypt_block f m p) p ≡ read m p 8
  unfolding crypt_block
  out_back m p h =
      let v0 = from_le (read m p 4) in
      let v1 = from_le (read m (p + 4) 4) in
      let b0 = word_at-lt m p h in
      let b1 = word_at-lt m (p + 4) h in
      let (w0, w1) = f (v0, v1) in
      let (c0, c1) = fit v0 v1 b0 b1 in
      out-write g m p w0 w1 v0 v1 c0 c1 (undo v0 v1 b0 b1)
      ∙ cc (le_bytes-read m p h, le_bytes-read m (p + 4) h, read-add m p 4 4)

  undo_block : (m : Memory) (p : ℕ) → IsBytes m → crypt_block g (crypt_block f m p) p ≡ m
  undo_block m p h =
      crypt_block-write g (crypt_block f m p) p
      ∙ ap (write (crypt_block f m p) p) (out_back m p h)
      ∙ restore m (crypt_block f m p) p 8 (λ i away. crypt_block_outside f m p i away)

  undo_blocks : (n : ℕ) (m : Memory) (p : ℕ) → IsBytes m → blocks n g (blocks n f m p) p ≡ m
  unfolding blocks
  undo_blocks zero m p h = refl
  undo_blocks (suc n) m p h =
      ap (λ (x : Memory). blocks n g x (p + 8))
        (blocks_comm n f g (crypt_block f m p) p (p + 8) (omega arith)
          ∙ ap (λ (x : Memory). blocks n f x (p + 8)) (undo_block m p h))
      ∙ undo_blocks n m (p + 8) h

-- `XTEA_decrypt` restores a buffer that `XTEA_encrypt` ciphered in place, under the same key and
-- over a region of whole blocks; both loops end within their fuel.
pub decrypt_buffer-encrypt_buffer :
    (k : Key) (m : Memory) (buffer n : ℕ)
    → IsBytes m
    → decrypt_buffer k (encrypt_buffer k m buffer (8 * n)) buffer (8 * n) ≡ m
unfolding decrypt_buffer encrypt_buffer
decrypt_buffer-encrypt_buffer k m buffer n h =
    let f = encrypt_words k in
    let g = decrypt_words k in
    let enc = crypt_loop-blocks n (8 * n) f m buffer 0 (8 * n) (omega arith) (omega arith) in
    let dec = λ (x : Memory).
      crypt_loop-blocks n (8 * n) g x buffer 0 (8 * n) (omega arith) (omega arith) in
    dec (crypt_loop (8 * n) f m buffer 0 (8 * n))
    ∙ ap (λ (x : Memory). blocks n g x (buffer + 0)) enc
    ∙ undo_blocks f g (encrypt_words_fit k) (decrypt_words-encrypt_words k) n m (buffer + 0) h

pub blocks_outside :
    (n : ℕ) (f : Cipher) (m : Memory) (p i : ℕ) → (i < p) ⊎ (p + 8 * n ≤ i) → blocks n f m p i ≡ m i
unfolding blocks
blocks_outside zero f m p i h = refl
blocks_outside (suc n) f m p i h =
    blocks_outside n f (crypt_block f m p) (p + 8) i (omega arith)
    ∙ crypt_block_outside f m p i (omega arith)
