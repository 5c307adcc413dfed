-- ===== src/Net/Packet/Delivery.antt =====
-- A frame of `onSendMessage` that arrives at src/connection.cpp: the header, the word and the
-- blocks give the body back.
use zenonia.Base.{
  ℕ, zero, suc, ◌+◌, ◌-◌, ◌*◌, ◌%◌, ◌<◌, ◌≤◌, ◌≡◌, refl, ap, ◌∙◌, inl, inr, Bool, true, false, List,
  [], ◌∷◌, length, All, arith, ltb, leb, ◌==◌, ◌||◌, some,
}
use zenonia.Bytes.{
  Memory, IsByte, read, write, poke, le_bytes, from_le, length-le_bytes, le_bytes-IsByte,
  write_outside, read-write_outside, read-write_self, read-ext, length-read, from_le-read-write,
}
use zenonia.Bytes.Regions.{copied, write-IsByte}
use zenonia.Net.Message.{Message, get_length_header, get_body_buffer, set_length, u16, filler}
use zenonia.Net.Message.Overrun.{get_ok}
use zenonia.Net.Xtea.{Key, encrypt_buffer, decrypt_buffer}
use zenonia.Net.Xtea.Blocks.{IsBytes, decrypt_buffer-encrypt_buffer}
use zenonia.Net.Xtea.Locality.{SameOn, decrypt_buffer_same}
use zenonia.Net.Packet.{
  Protocol, on_send_message, wire, xtea_decrypt, on_recv_message, parse_header, parse_packet,
  receive,
}
use zenonia.Net.Packet.Sending.{
  blocks_of, padding_of, plain_buffer, max_protocol_body_length, framed, composed,
  on_send_message-framed,
}

filler-IsByte : (n : ℕ) → All IsByte (filler n)
filler-IsByte zero = tt
filler-IsByte (suc n) = (omega arith, filler-IsByte n)

module _ (m : Memory) (bs : List ℕ) (byte_m : IsBytes m) (byte_bs : All IsByte bs)
    (h : length bs ≤ max_protocol_body_length) where
  plain-IsBytes : IsBytes (plain_buffer m bs)
  unfolding plain_buffer
  plain-IsBytes =
      write-IsByte _ (8 + length bs) (filler (padding_of (length bs)))
        (write-IsByte _ 6 (le_bytes 2 (length bs)) (write-IsByte m 8 bs byte_m byte_bs)
          (le_bytes-IsByte 2 (length bs)))
        (filler-IsByte (padding_of (length bs)))

  plain_length : from_le (read (plain_buffer m bs) 6 2) ≡ length bs
  unfolding plain_buffer
  plain_length =
      let n = length bs in
      rw
        (read-write_outside (write (write m 8 bs) 6 (le_bytes 2 n)) 6 2 (8 + n)
          (filler (padding_of n)) (inl (omega arith)))
        (from_le-read-write (write m 8 bs) 6 2 n (omega arith))

  plain_body : read (plain_buffer m bs) 8 (length bs) ≡ bs
  unfolding plain_buffer
  plain_body =
      let n = length bs in
      read-write_outside (write (write m 8 bs) 6 (le_bytes 2 n)) 8 n (8 + n) (filler (padding_of n))
        (inl (omega arith))
      ∙ read-write_outside (write m 8 bs) 8 n 6 (le_bytes 2 n)
          (inr (omega (arith, length-le_bytes 2 n)))
      ∙ read-write_self m 8 bs

  module _ (k : Key) (c : ℕ) where
    frame : Memory
    frame = (framed k m bs c).buffer

    frame_blocks :
        SameOn 6
          (6 + 8 * blocks_of (length bs))
          frame
          (encrypt_buffer k (plain_buffer m bs) 6 (8 * blocks_of (length bs)))
    unfolding frame framed
    frame_blocks i lo hi =
        write_outside _ 0 (le_bytes 2 (8 * blocks_of (length bs) + 4)) i
          (inr (omega (arith, length-le_bytes 2 (8 * blocks_of (length bs) + 4))))
        ∙ write_outside _ 2 (le_bytes 4 c) i (inr (omega (arith, length-le_bytes 4 c)))

    -- Deciphering any buffer that holds the blocks of the frame.
    deciphered :
        (b : Memory)
        → SameOn 6 (6 + 8 * blocks_of (length bs)) b frame
        → SameOn 6
            (6 + 8 * blocks_of (length bs))
            (decrypt_buffer k b 6 (8 * blocks_of (length bs)))
            (plain_buffer m bs)
    deciphered b same i lo hi =
        decrypt_buffer_same k b (encrypt_buffer k (plain_buffer m bs) 6 (8 * blocks_of (length bs)))
          6 (blocks_of (length bs)) (λ j l u. same j l u ∙ frame_blocks j l u) i lo hi
        ∙ ap (λ (x : Memory). x i)
            (decrypt_buffer-encrypt_buffer k (plain_buffer m bs) 6 (blocks_of (length bs))
              plain-IsBytes)

    frame_header : frame 0 + 256 * frame 1 ≡ 8 * blocks_of (length bs) + 4
    unfolding frame framed read from_le
    frame_header =
        let v = 8 * blocks_of (length bs) + 4 in
        omega (
          arith,
          from_le-read-write
              (write (encrypt_buffer k (plain_buffer m bs) 6 (8 * blocks_of (length bs))) 2
                (le_bytes 4 c))
              0 2 v (omega arith),
        )

    frame-wire :
        wire (framed k m bs c) ≡ frame 0 ∷ frame 1 ∷ read frame 2 (8 * blocks_of (length bs) + 4)
    unfolding wire frame framed read
    frame-wire =
        let e : 8 * blocks_of (length bs) + 6 ≡ suc (suc (8 * blocks_of (length bs) + 4)) =
          omega arith in
        rw e

-- A message as it arrives, with the position at `p`.
abbrev arrived : ℕ → ℕ → Bool → Memory → Message
arrived j p flag b = record { length = 8 * j + 6; position = p; overrun = flag; buffer = b }

-- What `XTEA_decrypt` makes of a message whose blocks decipher to a length and a body.
decrypt_lem :
    (k : Key) (j n : ℕ) (flag : Bool) (b : Memory)
    → n + 2 ≤ 8 * j
    → 8 * j + 6 < 24580
    → from_le (read (decrypt_buffer k b 6 (8 * j)) 6 2) ≡ n
    → xtea_decrypt k (arrived j 6 flag b) ≡ (
      true,
      record { length = n; position = 8; overrun = flag; buffer = decrypt_buffer k b 6 (8 * j) },
    )
unfolding xtea_decrypt set_length
decrypt_lem k j n flag b small fit inner =
    let a : 8 * j + 6 - 6 ≡ 8 * j = omega arith in
    let d = decrypt_buffer k b 6 (8 * j) in
    let e = get_ok 2 (arrived j 6 flag d) (omega arith) (omega arith) in
    let whole : (8 * j + 6 + 2) % 8 == 0 ≡ true = ground arith in
    let room : ltb (8 * j + 6) (n + 8) ≡ false = ground arith in
    let short : u16 n ≡ n = omega arith in rw (a, e, inner, whole, room, short)

module _ (r : Message) (lo hi j : ℕ) (announced : lo + 256 * hi ≡ 8 * j + 4)
    (fit : 8 * j + 6 < 24580) where
  abbrev headed : Memory
  headed = write r.buffer 0 (lo ∷ hi ∷ [])

  parse_header_lem :
      parse_header (record r { buffer = headed })
      ≡ some (2, 8 * j + 4, arrived j 2 r.overrun headed)
  unfolding parse_header get_length_header get_body_buffer set_length write poke
  parse_header_lem =
      let size : u16 (lo + 256 * hi) ≡ 8 * j + 4 = omega arith in
      let whole : u16 (8 * j + 4 + 2) ≡ 8 * j + 6 = omega arith in
      let some_left : 8 * j + 4 == 0 ≡ false = ground arith in
      let room : leb 24574 (8 * j + 4) ≡ false = ground arith in rw (size, whole, some_left, room)

  receive_lem :
      (p : Protocol) (body : List ℕ)
      → length body ≡ 8 * j + 4
      → receive p r (lo ∷ hi ∷ body)
        ≡ on_recv_message p (arrived j 6 r.overrun (write headed 2 body))
  unfolding receive parse_packet
  receive_lem p body n =
      let e = get_ok 4 (arrived j 2 r.overrun (write headed 2 body)) (omega arith) (omega arith) in
      ground (arith, parse_header_lem, n, e)

-- With ciphering on at both ends under one key, no raw messages, and a word in front of the body (compact or a checksum):
-- what `onSendMessage` sends, the receiving side takes in. A body of bytes that fits an output buffer arrives whole,
-- behind the position 8, as the length says, and with the overrun flag as it was.
pub receive-on_send_message :
    (p q : Protocol) (m : Memory) (r : Message) (bs : List ℕ)
    → IsBytes m
    → All IsByte bs
    → length bs ≤ max_protocol_body_length
    → p.raw_messages ≡ false
    → p.encryption_enabled ≡ true
    → p.compact_crypt || p.checksum_enabled ≡ true
    → q.encryption_enabled ≡ true
    → q.key ≡ p.key
    → (msg : Message) × (receive q r (wire (on_send_message p (composed m bs)).0) ≡ some msg)
      × (msg.length ≡ length bs)
      × (msg.position ≡ 8)
      × (read msg.buffer 8 (length bs) ≡ bs)
      × (msg.overrun ≡ r.overrun)
unfolding on_recv_message
receive-on_send_message p q m r bs hm hb h raw enc word enc' key =
    let n = length bs in
    let j = blocks_of n in
    let (c, sent) = on_send_message-framed p m bs h raw enc word in
    let f = frame m bs hm hb h p.key c in
    let body = read f 2 (8 * j + 4) in
    let full = length-read f 2 (8 * j + 4) in
    let fit : 8 * j + 6 < 24580 = omega arith in
    let header = frame_header m bs hm hb h p.key c in
    let b = write (headed r (f 0) (f 1) j header fit) 2 body in
    let same : SameOn 6 (6 + 8 * j) b f =
      λ i lo hi. copied f _ 2 (8 * j + 4) i (omega arith) (omega arith) in
    let plain = deciphered m bs hm hb h p.key c b same in
    let d = decrypt_buffer p.key b 6 (8 * j) in
    let inner : from_le (read d 6 2) ≡ n =
      ap from_le (read-ext d (plain_buffer m bs) 6 2 (λ i lo hi. plain i lo (omega arith)))
      ∙ plain_length m bs hm hb h in
    let content : read d 8 n ≡ bs =
      read-ext d (plain_buffer m bs) 8 n (λ i lo hi. plain i (omega arith) (omega arith))
      ∙ plain_body m bs hm hb h in
    let got : Message = record { length = n; position = 8; overrun = r.overrun; buffer = d } in
    (
      got,
      rw (sent, frame-wire m bs hm hb h p.key c)
          (receive_lem r (f 0) (f 1) j header fit q body full
            ∙ rw (enc', key, decrypt_lem p.key j n r.overrun b (omega arith) fit inner)),
      refl,
      refl,
      content,
      refl,
    )
