-- ===== src/Net/Xtea/Rounds.antt =====
-- The rounds of src/protocol.cpp undo one another.
use zenonia.Base.{ℕ, zero, suc, ◌<◌, ◌≡◌, refl, ap, ◌∙◌, arith}
use zenonia.Net.Xtea.{
  word_size, add32, sub32, Key, State, delta, first_term, second_term, encrypt_round, decrypt_round,
  encrypt_rounds, decrypt_rounds, encrypt_words, decrypt_words,
}

pub record InWords (s : State) : Type 0 where
  pub v0_fits : s.v0 < word_size
  pub v1_fits : s.v1 < word_size
  pub sum_fits : s.sum < word_size

add32-lt : (a b : ℕ) → add32 a b < word_size
unfolding add32
add32-lt a b = omega arith

sub32-lt : (a b : ℕ) → sub32 a b < word_size
unfolding sub32
sub32-lt a b = omega arith

-- Whatever the term is.
sub32-add32 : (a t : ℕ) → a < word_size → sub32 (add32 a t) t ≡ a
unfolding add32 sub32
sub32-add32 a t h = omega arith

add32-sub32 : (a t : ℕ) → a < word_size → add32 (sub32 a t) t ≡ a
unfolding add32 sub32
add32-sub32 a t h = omega arith

decrypt_round-encrypt_round :
    (k : Key) (s : State) → InWords s → decrypt_round k (encrypt_round k s) ≡ s
unfolding decrypt_round encrypt_round
decrypt_round-encrypt_round k s h =
    let v0' = add32 s.v0 (first_term k s.v1 s.sum) in
    let sum' = sub32 s.sum delta in
    rw (
      sub32-add32 s.v1 (second_term k v0' sum') h.v1_fits,
      add32-sub32 s.sum delta h.sum_fits,
      sub32-add32 s.v0 (first_term k s.v1 s.sum) h.v0_fits,
    )

encrypt_round-InWords : (k : Key) (s : State) → InWords (encrypt_round k s)
unfolding encrypt_round
encrypt_round-InWords k s = record {
  v0_fits = add32-lt _ _;
  v1_fits = add32-lt _ _;
  sum_fits = sub32-lt s.sum delta;
}

-- The last round, in place of the first.
decrypt_rounds-suc :
    (n : ℕ) (k : Key) (s : State)
    → decrypt_rounds (suc n) k s ≡ decrypt_round k (decrypt_rounds n k s)
unfolding decrypt_rounds
decrypt_rounds-suc zero k s = refl
decrypt_rounds-suc (suc n) k s = decrypt_rounds-suc n k (decrypt_round k s)

encrypt_rounds-suc :
    (n : ℕ) (k : Key) (s : State)
    → encrypt_rounds (suc n) k s ≡ encrypt_rounds n k (encrypt_round k s)
unfolding encrypt_rounds
encrypt_rounds-suc n k s = refl

no_rounds : (k : Key) (s : State) → decrypt_rounds zero k (encrypt_rounds zero k s) ≡ s
unfolding encrypt_rounds decrypt_rounds
no_rounds k s = refl

-- Any number of decryption rounds undoes as many encryption rounds.
pub decrypt_rounds-encrypt_rounds :
    (n : ℕ) (k : Key) (s : State) → InWords s → decrypt_rounds n k (encrypt_rounds n k s) ≡ s
decrypt_rounds-encrypt_rounds zero k s h = no_rounds k s
decrypt_rounds-encrypt_rounds (suc n) k s h =
    rw
      (
        encrypt_rounds-suc n k s,
        decrypt_rounds-suc n k (encrypt_rounds n k (encrypt_round k s)),
        decrypt_rounds-encrypt_rounds n k (encrypt_round k s) (encrypt_round-InWords k s),
      )
      (decrypt_round-encrypt_round k s h)

encrypt_rounds-InWords : (n : ℕ) (k : Key) (s : State) → InWords s → InWords (encrypt_rounds n k s)
unfolding encrypt_rounds
encrypt_rounds-InWords zero k s h = h
encrypt_rounds-InWords (suc n) k s h =
    encrypt_rounds-InWords n k (encrypt_round k s) (encrypt_round-InWords k s)

pub encrypt_words_fit :
    (k : Key) (v0 v1 : ℕ)
    → v0 < word_size
    → v1 < word_size
    → ((encrypt_words k (v0, v1)).0 < word_size) × ((encrypt_words k (v0, v1)).1 < word_size)
unfolding encrypt_words
encrypt_words_fit k v0 v1 h0 h1 =
    let s : State = record { v0 = v0; v1 = v1; sum = 0 } in
    let r = encrypt_rounds-InWords 32 k s (omega arith) in (r.v0_fits, r.v1_fits)

sum_of : ℕ → ℕ → ℕ
sum_of zero sum = sum
sum_of (suc n) sum = sum_of n (sub32 sum delta)

-- The running sum does not depend on the words.
sum-encrypt_rounds : (n : ℕ) (k : Key) (s : State) → (encrypt_rounds n k s).sum ≡ sum_of n s.sum
unfolding encrypt_rounds sum_of
sum-encrypt_rounds zero k s = refl
sum-encrypt_rounds (suc n) k s =
    sum-encrypt_rounds n k (encrypt_round k s) ∙ ap (sum_of n) (unfold encrypt_round in refl)

final_sum : sum_of 32 0 ≡ 0xC6EF3720
unfolding sum_of sub32
final_sum = refl

-- `XTEA_decrypt` of a block starts at the sum at which `XTEA_encrypt` ends, and so undoes it.
pub decrypt_words-encrypt_words :
    (k : Key) (v0 v1 : ℕ)
    → v0 < word_size
    → v1 < word_size
    → decrypt_words k (encrypt_words k (v0, v1)) ≡ (v0, v1)
unfolding decrypt_words encrypt_words
decrypt_words-encrypt_words k v0 v1 h0 h1 =
    let s : State = record { v0 = v0; v1 = v1; sum = 0 } in
    let e = sum-encrypt_rounds 32 k s ∙ final_sum in
    rw (← e) (ap (λ (r : State). (r.v0, r.v1)) (decrypt_rounds-encrypt_rounds 32 k s (omega arith)))
