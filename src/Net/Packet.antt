-- ===== src/Net/Packet.antt =====
-- Packets: `OutputMessage` of src/outputmessage.h, what `Protocol` of src/protocol.cpp does with a
-- message that leaves or arrives, and the part of `Connection` of src/connection.cpp that puts an
-- arriving packet into a message. The socket is outside: its bytes are arguments and results.
pub mod Sending
pub mod Delivery
pub mod EndToEnd
use zenonia.Base.{
  ℕ, zero, suc, ◌+◌, ◌-◌, ◌%◌, ◌^◌, Bool, true, false, not, ◌&&◌, ◌||◌, List, [], ◌∷◌, Option, none,
  some, ltb, leb, ◌==◌, if◌then◌else◌, length,
}
use zenonia.Bytes.{Memory, read, write, le_bytes}
use zenonia.Net.Message.{
  Message, fresh, u16, get, set_length, get_length_header, get_body_buffer, add_padding_bytes,
  initial_buffer_position, max_size,
}
use zenonia.Net.Xtea.{Key, encrypt_buffer, decrypt_buffer}
use zenonia.Net.Checksum.{adler_checksum}

pub record OutputMessage : Type 0 where
  pub message : Message
  pub open message use *
  pub output_buffer_start : ℕ

unfoldable pub new_output : Message → OutputMessage
new_output msg = record { message = msg; output_buffer_start = initial_buffer_position }

-- `add_header` of a value of `w` bytes. Its assertion, that there is room in front, is a hypothesis
-- of the theorems.
unfoldable pub add_header : ℕ → ℕ → OutputMessage → OutputMessage
add_header w value o =
    let start = u16 (o.output_buffer_start + 65536 - w) in
    record {
      message = record (o.message) {
        length = u16 (o.length + w);
        buffer = write o.buffer start (le_bytes w value);
      };
      output_buffer_start = start;
    }

unfoldable pub write_message_length : OutputMessage → OutputMessage
write_message_length o = add_header 2 o.length o

-- The sequence number is passed by reference: the new one is the second result.
unfoldable pub add_crypto_header : ℕ → ℕ → OutputMessage → OutputMessage × ℕ
add_crypto_header add_checksum sequence o =
    let summed = add_header 4 (adler_checksum (read o.buffer o.output_buffer_start o.length)) o in
    let numbered = add_header 4 sequence o in
    if add_checksum == 1
    then (write_message_length summed, sequence)
    else if add_checksum == 2
    then (write_message_length numbered, (sequence + 1) % 2 ^ 32)
    else (write_message_length o, sequence)

pub record Protocol : Type 0 where
  pub key : Key
  pub sequence_number : ℕ
  pub encryption_enabled : Bool
  pub checksum_enabled : Bool
  pub compact_crypt : Bool
  pub raw_messages : Bool

-- `XTEA_encrypt`: padding to whole blocks, then the rounds over the output buffer.
unfoldable pub xtea_encrypt : Key → OutputMessage → OutputMessage
xtea_encrypt k o =
    let padding = o.length % 8 in
    let msg = if padding == 0 then o.message else add_padding_bytes (8 - padding) o.message in
    record o {
      message = record msg {
        buffer = encrypt_buffer k msg.buffer o.output_buffer_start msg.length;
      };
    }

unfoldable pub on_send_message : Protocol → OutputMessage → OutputMessage × Protocol
on_send_message p o =
    let o1 = write_message_length o in
    let o2 = xtea_encrypt p.key o1 in
    let mode = if p.compact_crypt then 2 else if p.checksum_enabled then 1 else 0 in
    let (o3, sequence) = add_crypto_header mode p.sequence_number o2 in
    if p.raw_messages
    then (o, p)
    else if p.encryption_enabled
    then (o3, record p { sequence_number = sequence })
    else (o1, p)

-- What `internalSend` hands to the socket.
unfoldable pub wire : OutputMessage → List ℕ
wire o = read o.buffer o.output_buffer_start o.length

-- `XTEA_decrypt`. `getLength() - 6` is an `int`: its three low bits are those of the length + 2,
-- and they are not all 0 while the length is below 6. Nor is `getLength() - 8` cut off at 0.
unfoldable pub xtea_decrypt : Key → Message → Bool × Message
xtea_decrypt k msg =
    let plain = record msg { buffer = decrypt_buffer k msg.buffer msg.position (msg.length - 6) } in
    let (inner_length, msg') = get 2 plain in
    if not ((msg.length + 2) % 8 == 0)
    then (false, msg)
    else if ltb msg'.length (inner_length + 8)
    then (false, msg')
    else (true, set_length inner_length msg')

-- `onRecvMessage`: the message that `parsePacket` is called with, if it is.
unfoldable pub on_recv_message : Protocol → Message → Option Message
on_recv_message p msg =
    let (ok, msg') = xtea_decrypt p.key msg in
    if not (p.encryption_enabled) then some msg else if ok then some msg' else none

-- The end of `parseHeader`, with the two header bytes in the buffer: where the body is to be read,
-- and how much of it, or nothing if the connection is closed.
unfoldable pub parse_header : Message → Option (ℕ × ℕ × Message)
parse_header msg =
    let size = get_length_header msg in
    let (offset, msg') = get_body_buffer (set_length (size + 2) msg) in
    if size == 0 || leb (max_size - 16) size then none else some (offset, size, msg')

-- `parsePacket` of any packet but the first of a connection.
unfoldable pub parse_packet : Protocol → Message → Option Message
parse_packet p msg = let (recv_packet, msg') = get 4 msg in on_recv_message p msg'

-- A packet that arrives: two bytes first, and then as many as they announce.
unfoldable pub receive : Protocol → Message → List ℕ → Option Message
receive p msg [] = none
receive p msg (lo ∷ []) = none
receive p msg (lo ∷ hi ∷ body) =
    elim (parse_header (record msg { buffer = write msg.buffer 0 (lo ∷ hi ∷ []) })) [
      | none ↦ none
      | some (offset, size, msg') ↦
          if length body == size
          then parse_packet p (record msg' { buffer = write msg'.buffer offset body })
          else none
    ]
