-- ===== src/Tests/MessageTests.antt =====
-- src/networkmessage.h on concrete messages.
use zenonia.Base.{◌≡◌, refl, false, arith, List, [], ◌∷◌, map}
use zenonia.Bytes.{Memory, read, write, le_bytes}
use zenonia.Net.Message.{Message, fresh, put, add}
use zenonia.Net.Message.Fields.{Field, byte, word, text, place, kind, add_fields, get_fields}
use zenonia.Net.Message.Bounds.{Write, field, item_id, bytes, padding}
use zenonia.Net.Message.Overrun.{Reads, get_fields-Reads}
use zenonia.Net.Message.RoundTrip.{rewind, get_fields-add_fields}
use zenonia.Net.Message.Fields.{Kind}

abbrev pub blank : Memory
blank i = 0

abbrev pub greeting : List Field
greeting =
    byte 0x0a
    ∷ word 4 0x01020304
    ∷ text (72 ∷ 105 ∷ [])
    ∷ text []
    ∷ place (record { x = 95; y = 117; z = 7 })
    ∷ []

little_endian : read (add 4 0x01020304 (fresh blank)).buffer 8 4 ≡ 4 ∷ 3 ∷ 2 ∷ 1 ∷ []
unfolding add fresh put read write le_bytes
little_endian = refl

get_fields-add_fields_example :
    let (back, after) =
      get_fields (map kind greeting) (rewind (add_fields greeting (fresh blank))) in
    (back ≡ greeting) × (after.overrun ≡ false)
unfolding le_bytes
get_fields-add_fields_example = get_fields-add_fields greeting blank (omega arith) (omega arith)

-- Values, an item of the client's id 100 + 7, three bytes, and five of padding.
abbrev everything : List Write
everything =
    field (text (72 ∷ 105 ∷ []))
    ∷ item_id 7
    ∷ bytes (1 ∷ 2 ∷ 3 ∷ [])
    ∷ padding 5
    ∷ field (byte 9)
    ∷ []

get_fields-Reads_example :
    Reads (fresh blank) (get_fields (Kind.byte ∷ Kind.word 4 ∷ Kind.text ∷ []) (fresh blank)).1
get_fields-Reads_example = get_fields-Reads (Kind.byte ∷ Kind.word 4 ∷ Kind.text ∷ []) (fresh blank)

abbrev pub short : Message
short = record { length = 3; position = 8; overrun = false; buffer = blank }
