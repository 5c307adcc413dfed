-- ===== src/Net/Xtea.antt =====
-- The cipher of src/protocol.cpp: the rounds of `XTEA_encrypt` and `XTEA_decrypt` on two
-- `uint32_t` words, and the loops that apply them to a buffer, eight bytes at a time.
pub mod Rounds
pub mod Blocks
pub mod Locality
use Prim.Native.Nat.{bit_xor}
use zenonia.Base.{ℕ, zero, suc, ◌+◌, ◌-◌, ◌*◌, ◌/◌, ◌%◌, ◌^◌, ltb, ◌==◌, if◌then◌else◌}
use zenonia.Bytes.{Memory, read, write, le_bytes, from_le}

abbrev pub word_size : ℕ
word_size = 2 ^ 32

-- `+` and `-` on `uint32_t`, for any operands: both reduce what they take.
unfoldable pub add32 : ℕ → ℕ → ℕ
add32 a b = (a + b) % word_size

unfoldable pub sub32 : ℕ → ℕ → ℕ
sub32 a b = (a + word_size - b % word_size) % word_size

-- `key[0]` to `key[3]`
pub record Key : Type 0 where
  pub k0 : ℕ
  pub k1 : ℕ
  pub k2 : ℕ
  pub k3 : ℕ

-- `k[i & 3]`
unfoldable pub key_word : Key → ℕ → ℕ
key_word k i =
    let j = i % 4 in if j == 0 then k.k0 else if j == 1 then k.k1 else if j == 2 then k.k2 else k.k3

abbrev pub delta : ℕ
delta = 0x61C88647

-- `(v << 4 ^ v >> 5) + v`
unfoldable pub mix : ℕ → ℕ
unfolding add32
mix v = add32 (bit_xor (v * 16 % word_size) (v / 32)) v

-- The words and the running sum of the inner loops.
pub record State : Type 0 where
  pub v0 : ℕ
  pub v1 : ℕ
  pub sum : ℕ

-- What is added to, or taken from, the first word and the second.
unfoldable pub first_term : Key → ℕ → ℕ → ℕ
unfolding mix add32 key_word
first_term k v1 sum = bit_xor (mix v1) (add32 sum (key_word k sum))

unfoldable pub second_term : Key → ℕ → ℕ → ℕ
unfolding mix add32 key_word
second_term k v0 sum = bit_xor (mix v0) (add32 sum (key_word k (sum / 2 ^ 11)))

unfoldable pub encrypt_round : Key → State → State
unfolding first_term second_term add32 sub32
encrypt_round k s =
    let v0 = add32 s.v0 (first_term k s.v1 s.sum) in
    let sum = sub32 s.sum delta in
    let v1 = add32 s.v1 (second_term k v0 sum) in record { v0 = v0; v1 = v1; sum = sum }

unfoldable pub decrypt_round : Key → State → State
unfolding first_term second_term add32 sub32
decrypt_round k s =
    let v1 = sub32 s.v1 (second_term k s.v0 s.sum) in
    let sum = add32 s.sum delta in
    let v0 = sub32 s.v0 (first_term k v1 sum) in record { v0 = v0; v1 = v1; sum = sum }

-- `for (int32_t i = 32; --i >= 0;)` with the rounds left.
unfoldable pub encrypt_rounds : ℕ → Key → State → State
encrypt_rounds zero k s = s
encrypt_rounds (suc n) k s = encrypt_rounds n k (encrypt_round k s)

unfoldable pub decrypt_rounds : ℕ → Key → State → State
decrypt_rounds zero k s = s
decrypt_rounds (suc n) k s = decrypt_rounds n k (decrypt_round k s)

unfoldable pub encrypt_words : Key → ℕ × ℕ → ℕ × ℕ
encrypt_words k (v0, v1) =
    let s = encrypt_rounds 32 k (record { v0 = v0; v1 = v1; sum = 0 }) in (s.v0, s.v1)

unfoldable pub decrypt_words : Key → ℕ × ℕ → ℕ × ℕ
decrypt_words k (v0, v1) =
    let s = decrypt_rounds 32 k (record { v0 = v0; v1 = v1; sum = 0xC6EF3720 }) in (s.v0, s.v1)

-- One pass of a `while` loop: two words in, two words out, in place.
unfoldable pub crypt_block : (ℕ × ℕ → ℕ × ℕ) → Memory → ℕ → Memory
crypt_block f m p =
    let (w0, w1) = f (from_le (read m p 4), from_le (read m (p + 4) 4)) in
    write (write m p (le_bytes 4 w0)) (p + 4) (le_bytes 4 w1)

-- `while (readPos < messageLength)` from `buffer`, with fuel.
unfoldable pub crypt_loop : ℕ → (ℕ × ℕ → ℕ × ℕ) → Memory → ℕ → ℕ → ℕ → Memory
crypt_loop zero f m buffer read_pos message_length = m
crypt_loop (suc fuel) f m buffer read_pos message_length =
    let rest =
      crypt_loop fuel f (crypt_block f m (buffer + read_pos)) buffer (read_pos + 8)
        message_length in
    if ltb read_pos message_length then rest else m

-- Each pass moves eight bytes on, so that the length is fuel enough.
unfoldable pub encrypt_buffer : Key → Memory → ℕ → ℕ → Memory
encrypt_buffer k m buffer message_length =
    crypt_loop message_length (encrypt_words k) m buffer 0 message_length

unfoldable pub decrypt_buffer : Key → Memory → ℕ → ℕ → Memory
decrypt_buffer k m buffer message_length =
    crypt_loop message_length (decrypt_words k) m buffer 0 message_length
