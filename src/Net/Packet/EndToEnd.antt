-- ===== src/Net/Packet/EndToEnd.antt =====
-- From the values written to a message by one side to the values read by the other:
-- src/networkmessage.h, src/outputmessage.h, src/protocol.cpp and src/connection.cpp together.
use zenonia.Base.{
  ℕ, ◌≤◌, ◌≡◌, List, [], ◌++◌, map, length, All, arith, append-nil, true, false, ◌||◌, some,
}
use zenonia.Bytes.{IsByte, Memory, read}
use zenonia.Net.Message.{Message, fresh}
use zenonia.Net.Message.Fields.{Field, kind, IsValid, encode_all, add_fields, get_fields}
use zenonia.Net.Message.Writing.{add_fields-put}
use zenonia.Net.Message.Reading.{Holds, get_fields-Holds}
use zenonia.Net.Xtea.Blocks.{IsBytes}
use zenonia.Net.Packet.{Protocol, new_output, on_send_message, wire, receive}
use zenonia.Net.Packet.Sending.{max_protocol_body_length}
use zenonia.Net.Packet.Delivery.{receive-on_send_message}

arrived-Holds :
    (msg : Message) (bs : List ℕ)
    → length bs ≤ max_protocol_body_length
    → msg.length ≡ length bs
    → msg.position ≡ 8
    → read msg.buffer 8 (length bs) ≡ bs
    → Holds msg (bs ++ [])
arrived-Holds msg bs h el ep e =
    rw append-nil (record { bytes = rw ep e; in_length = omega arith; in_buffer = omega arith })

-- Values written to a fresh message, sent with the cipher on, and received under the same key are
-- read back as they were, whatever the kind of the word in front and the state of the receiver's
-- buffer.
pub get_fields-receive :
    (p q : Protocol) (m : Memory) (r : Message) (fs : List Field)
    → IsBytes m
    → All IsValid fs
    → All IsByte (encode_all fs)
    → length (encode_all fs) ≤ max_protocol_body_length
    → p.raw_messages ≡ false
    → p.encryption_enabled ≡ true
    → p.compact_crypt || p.checksum_enabled ≡ true
    → q.encryption_enabled ≡ true
    → q.key ≡ p.key
    → (msg : Message) × (receive q r
          (wire (on_send_message p (new_output (add_fields fs (fresh m)))).0)
        ≡ some msg)
      × ((get_fields (map kind fs) msg).0 ≡ fs)
unfolding fresh
get_fields-receive p q m r fs hm ok hb h raw enc word enc' key =
    let bs = encode_all fs in
    let w = add_fields-put fs (fresh m) ok (omega arith) (omega arith) in
    let (msg, got, el, ep, e, _) =
      receive-on_send_message p q m r bs hm hb h raw enc word enc' key in
    let values = get_fields-Holds fs msg [] ok (arrived-Holds msg bs h el ep e) in
    (msg, rw w got, rw values)
