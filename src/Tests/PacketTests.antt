-- ===== src/Tests/PacketTests.antt =====
-- src/protocol.cpp, src/outputmessage.h and the checksum of src/tools.cpp on concrete data.
use Prim.Native.Nat.{bit_or}
use zenonia.Base.{ℕ, ◌*◌, ◌%◌, ◌≡◌, refl, true, false, arith, List, [], ◌∷◌, map, some}
use zenonia.Bytes.{le_bytes, read}
use zenonia.Net.Message.{Message, fresh}
use zenonia.Net.Message.Fields.{kind, add_fields, get_fields}
use zenonia.Net.Xtea.{
  Key, encrypt_round, encrypt_rounds, encrypt_words, encrypt_buffer, decrypt_buffer,
}
use zenonia.Net.Xtea.Blocks.{decrypt_buffer-encrypt_buffer}
use zenonia.Net.Checksum.{adler, adler_checksum, sum_chunk, sum_chunks}
use zenonia.Net.Checksum.Sums.{exact_sums, adler_checksum-exact_sums}
use zenonia.Net.Packet.{Protocol, new_output, on_send_message, wire, receive}
use zenonia.Net.Packet.Sending.{composed}
use zenonia.Net.Packet.Delivery.{receive-on_send_message}
use zenonia.Net.Packet.EndToEnd.{get_fields-receive}
use zenonia.Tests.MessageTests.{blank, greeting, short}

abbrev zero_key : Key
zero_key = record { k0 = 0; k1 = 0; k2 = 0; k3 = 0 }

-- The published vector of the cipher.
known_answer : encrypt_words zero_key (0, 0) ≡ (0xDEE9D4D8, 0xF7131ED9)
unfolding encrypt_words encrypt_rounds encrypt_round
known_answer = refl

decrypt_buffer-encrypt_buffer_example :
    decrypt_buffer zero_key (encrypt_buffer zero_key blank 6 (8 * 2)) 6 (8 * 2) ≡ blank
decrypt_buffer-encrypt_buffer_example =
    decrypt_buffer-encrypt_buffer zero_key blank 6 2 (λ i. omega arith)

abbrev wikipedia : List ℕ
wikipedia = 87 ∷ 105 ∷ 107 ∷ 105 ∷ 112 ∷ 101 ∷ 100 ∷ 105 ∷ 97 ∷ []

known_checksum : adler_checksum wikipedia ≡ 0x11E60398
unfolding adler_checksum sum_chunks sum_chunk
known_checksum = refl

adler_checksum-exact_sums_example :
    let (a, b) = exact_sums wikipedia (1, 0) in
    adler_checksum wikipedia ≡ bit_or (b % adler * 65536) (a % adler)
adler_checksum-exact_sums_example = adler_checksum-exact_sums wikipedia (omega arith) (omega arith)

abbrev session : Protocol
session = record {
  key = record { k0 = 1; k1 = 2; k2 = 3; k3 = 4 };
  sequence_number = 7;
  encryption_enabled = true;
  checksum_enabled = true;
  compact_crypt = false;
  raw_messages = false;
}

receive-on_send_message_example :
    (msg : Message) × (receive session short
        (wire (on_send_message session (composed blank (10 ∷ 20 ∷ []))).0)
      ≡ some msg)
    × (msg.length ≡ 2)
    × (msg.position ≡ 8)
    × (read msg.buffer 8 2 ≡ 10 ∷ 20 ∷ [])
    × (msg.overrun ≡ false)
receive-on_send_message_example =
    receive-on_send_message session session blank short (10 ∷ 20 ∷ []) (λ i. omega arith)
      (omega arith) (omega arith) refl refl refl refl refl

get_fields-receive_example :
    (msg : Message) × (receive session short
        (wire (on_send_message session (new_output (add_fields greeting (fresh blank)))).0)
      ≡ some msg)
    × ((get_fields (map kind greeting) msg).0 ≡ greeting)
unfolding le_bytes
get_fields-receive_example =
    get_fields-receive session session blank short greeting (λ i. omega arith) (omega arith)
      (omega arith) (omega arith) refl refl refl refl refl
