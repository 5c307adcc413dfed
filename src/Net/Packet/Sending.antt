-- ===== src/Net/Packet/Sending.antt =====
-- What `onSendMessage` of src/protocol.cpp makes of a message: the frame that goes out.
use zenonia.Base.{
  ℕ, ◌+◌, ◌-◌, ◌*◌, ◌/◌, ◌%◌, ◌≤◌, ◌≡◌, ap, inl, inr, true, false, List, length, arith, ltb, ◌==◌,
  ◌||◌, if◌then◌else◌, Bool-cases,
}
use zenonia.Bytes.{Memory, read, write, le_bytes}
use zenonia.Net.Message.{Message, fresh, put, u16, add_padding_bytes, filler, can_add}
use zenonia.Net.Xtea.{Key, encrypt_buffer}
use zenonia.Net.Checksum.{adler_checksum}
use zenonia.Net.Packet.{
  OutputMessage, Protocol, new_output, add_header, write_message_length, add_crypto_header,
  xtea_encrypt, on_send_message,
}

-- The cipher blocks that a body of `n` bytes takes with its length in front, and its padding.
abbrev pub blocks_of : ℕ → ℕ
blocks_of n = (n + 9) / 8

abbrev pub padding_of : ℕ → ℕ
padding_of n = 8 * blocks_of n - (n + 2)

-- The buffer before the cipher: the length, the body from offset 8 on, and the padding.
unfoldable pub plain_buffer : Memory → List ℕ → Memory
plain_buffer m bs =
    write (write (write m 8 bs) 6 (le_bytes 2 (length bs))) (8 + length bs)
      (filler (padding_of (length bs)))

-- The largest body of an output buffer, `MAX_PROTOCOL_BODY_LENGTH`.
abbrev pub max_protocol_body_length : ℕ
max_protocol_body_length = 24566

with_length : Memory → List ℕ → OutputMessage
with_length m bs = record {
  message = record {
    length = length bs + 2;
    position = 8 + length bs;
    overrun = false;
    buffer = write (write m 8 bs) 6 (le_bytes 2 (length bs));
  };
  output_buffer_start = 6;
}

ciphered : Key → Memory → List ℕ → OutputMessage
ciphered k m bs = record {
  message = record {
    length = 8 * blocks_of (length bs);
    position = 8 + length bs;
    overrun = false;
    buffer = encrypt_buffer k (plain_buffer m bs) 6 (8 * blocks_of (length bs));
  };
  output_buffer_start = 6;
}

-- The frame: the length of the rest, a word, and the ciphered blocks.
unfoldable pub framed : Key → Memory → List ℕ → ℕ → OutputMessage
framed k m bs c = record {
  message = record {
    length = 8 * blocks_of (length bs) + 6;
    position = 8 + length bs;
    overrun = false;
    buffer =
        write
          (write (encrypt_buffer k (plain_buffer m bs) 6 (8 * blocks_of (length bs))) 2
            (le_bytes 4 c))
          0 (le_bytes 2 (8 * blocks_of (length bs) + 4));
  };
  output_buffer_start = 0;
}

abbrev pub composed : Memory → List ℕ → OutputMessage
composed m bs = new_output (put bs (fresh m))

no_padding :
    (m : Memory) (bs : List ℕ)
    → padding_of (length bs) ≡ 0
    → plain_buffer m bs ≡ write (write m 8 bs) 6 (le_bytes 2 (length bs))
unfolding plain_buffer write
no_padding m bs e = rw e

module _ (k : Key) (m : Memory) (bs : List ℕ) (h : length bs ≤ max_protocol_body_length) where
  first_step : write_message_length (composed m bs) ≡ with_length m bs
  unfolding write_message_length add_header new_output put fresh with_length
  first_step =
      let a : u16 (0 + length bs) ≡ length bs = omega arith in
      let b : u16 (length bs + 2) ≡ length bs + 2 = omega arith in
      let c : u16 (8 + length bs) ≡ 8 + length bs = omega arith in rw (a, b, c)

  padded :
      (if (length bs + 2) % 8 == 0
        then (with_length m bs).message
        else add_padding_bytes (8 - (length bs + 2) % 8) (with_length m bs).message)
      ≡ record {
        length = 8 * blocks_of (length bs);
        position = 8 + length bs;
        overrun = false;
        buffer = plain_buffer m bs;
      }
  unfolding add_padding_bytes with_length plain_buffer can_add
  padded = elim (Bool-cases ((length bs + 2) % 8 == 0)) [
    | inl whole ↦
        let none_left : padding_of (length bs) ≡ 0 = ground arith in
        let l : length bs + 2 ≡ 8 * blocks_of (length bs) = ground arith in
        rw whole (cc (l, no_padding m bs none_left))
    | inr part ↦
        let some_left : 8 - (length bs + 2) % 8 ≡ padding_of (length bs) = ground arith in
        let room : ltb (padding_of (length bs) + (8 + length bs)) 24576 ≡ true = ground arith in
        let l : u16 (length bs + 2 + padding_of (length bs)) ≡ 8 * blocks_of (length bs) =
          ground arith in
        rw (part, some_left, room, l)
  ]

  second_step : xtea_encrypt k (with_length m bs) ≡ ciphered k m bs
  unfolding xtea_encrypt ciphered with_length
  second_step =
      ap
        (λ (msg : Message).
          let o : OutputMessage = record {
            message = record msg { buffer = encrypt_buffer k msg.buffer 6 msg.length };
            output_buffer_start = 6;
          } in
          o)
        padded

  third_step : (c : ℕ) → write_message_length (add_header 4 c (ciphered k m bs)) ≡ framed k m bs c
  unfolding write_message_length add_header ciphered framed
  third_step c =
      let a : u16 (8 * blocks_of (length bs) + 4) ≡ 8 * blocks_of (length bs) + 4 = omega arith in
      let b : u16 (8 * blocks_of (length bs) + 4 + 2) ≡ 8 * blocks_of (length bs) + 6 =
        omega arith in
      rw (a, b)

-- A protocol that ciphers and puts a word in front of the blocks, the checksum or the sequence
-- number, sends each body that fits as a frame.
pub on_send_message-framed :
    (p : Protocol) (m : Memory) (bs : List ℕ)
    → length bs ≤ max_protocol_body_length
    → p.raw_messages ≡ false
    → p.encryption_enabled ≡ true
    → p.compact_crypt || p.checksum_enabled ≡ true
    → (c : ℕ) × ((on_send_message p (composed m bs)).0 ≡ framed p.key m bs c)
unfolding on_send_message add_crypto_header
on_send_message-framed p m bs h raw enc word = elim (Bool-cases p.compact_crypt) [
  | inl compact ↦ (
    p.sequence_number,
    rw (raw, enc, compact, first_step p.key m bs h, second_step p.key m bs h)
        (third_step p.key m bs h p.sequence_number),
  )
  | inr plain ↦
      let o = ciphered p.key m bs in
      let c = adler_checksum (read o.buffer o.output_buffer_start o.length) in
      let sum : p.checksum_enabled ≡ true = ground arith in
      (
        c,
        rw (raw, enc, plain, sum, first_step p.key m bs h, second_step p.key m bs h)
            (third_step p.key m bs h c),
      )
]
