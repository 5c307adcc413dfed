-- ===== src/Net/Message/Overrun.antt =====
-- Reads of src/networkmessage.h and src/networkmessage.cpp that ask `canRead` first: getByte, get, getString with its
-- default length and getPosition. getPreviousByte and skipBytes move the position unchecked and are not among them.
use zenonia.Base.{
  ℕ, ◌+◌, ◌<◌, ◌≤◌, ◌≡◌, ◌⊎◌, inl, inr, refl, List, [], ◌∷◌, arith, true, Bool-cases,
}
use zenonia.Bytes.{read, from_le}
use zenonia.Net.Message.{
  Message, fits, get_byte, get, get_bytes, get_string, get_position, max_size, u16,
}
use zenonia.Net.Message.Fields.{Kind, byte, word, text, place, get_field, get_fields}

-- What a read keeps: all but the position, which stays within the message, and the flag, which is
-- never cleared.
pub record Reads (msg msg' : Message) : Type 0 where
  pub buffer_same : msg'.buffer ≡ msg.buffer
  pub length_same : msg'.length ≡ msg.length
  pub grows : msg.position ≤ msg'.position
  pub within : msg.position ≤ msg.length + 8 → msg'.position ≤ msg'.length + 8
  pub flag_kept : msg.overrun ≡ true → msg'.overrun ≡ true

Reads-trans : {a b c : Message} → Reads a b → Reads b c → Reads a c
Reads-trans {a} {b} {c} p q = record {
  buffer_same = cc (p.buffer_same, q.buffer_same);
  length_same = cc (p.length_same, q.length_same);
  grows = omega (arith, p.grows, q.grows);
  within = λ h. q.within (p.within h);
  flag_kept = λ h. q.flag_kept (p.flag_kept h);
}

fits_bounds :
    (msg : Message) (n : ℕ)
    → fits msg n ≡ true
    → (msg.position + n ≤ msg.length + 8) × (msg.position + n < max_size)
unfolding fits
fits_bounds msg n h = ground arith

moved_Reads :
    (msg : Message) (n : ℕ)
    → fits msg n ≡ true
    → Reads msg (record msg { position = u16 (msg.position + n) })
moved_Reads msg n h =
    let (l, b) = fits_bounds msg n h in
    record {
      buffer_same = refl;
      length_same = refl;
      grows = omega arith;
      within = λ _. omega arith;
      flag_kept = λ e. e;
    }

refused_Reads : (msg : Message) → Reads msg (record msg { overrun = true })
refused_Reads msg = record {
  buffer_same = refl;
  length_same = refl;
  grows = omega arith;
  within = λ h. h;
  flag_kept = λ _. refl;
}

get-Reads : (w : ℕ) (msg : Message) → Reads msg (get w msg).1
unfolding get
get-Reads w msg = elim (Bool-cases (fits msg w)) [
  | inl ok ↦ rw ok (moved_Reads msg w ok)
  | inr short ↦ rw short (refused_Reads msg)
]

get_byte-Reads : (msg : Message) → Reads msg (get_byte msg).1
unfolding get_byte
get_byte-Reads msg = elim (Bool-cases (fits msg 1)) [
  | inl ok ↦ rw ok (moved_Reads msg 1 ok)
  | inr short ↦ rw short (refused_Reads msg)
]

get_bytes-Reads : (n : ℕ) (msg : Message) → Reads msg (get_bytes n msg).1
unfolding get_bytes
get_bytes-Reads n msg = elim (Bool-cases (fits msg n)) [
  | inl ok ↦ rw ok (moved_Reads msg n ok)
  | inr short ↦ rw short (refused_Reads msg)
]

get_field-Reads : (k : Kind) (msg : Message) → Reads msg (get_field k msg).1
unfolding get_field get_string get_position
get_field-Reads byte msg = get_byte-Reads msg
get_field-Reads (word w) msg = get-Reads w msg
get_field-Reads text msg =
    Reads-trans (get-Reads 2 msg) (get_bytes-Reads (get 2 msg).0 (get 2 msg).1)
get_field-Reads place msg =
    Reads-trans (get-Reads 2 msg)
      (Reads-trans (get-Reads 2 (get 2 msg).1) (get_byte-Reads (get 2 (get 2 msg).1).1))

-- A run of reads of bytes, numbers, texts and positions leaves the buffer and the length alone, never moves back, never moves past the
-- end of a message that it starts inside of, and never clears the overrun flag.
pub get_fields-Reads : (ks : List Kind) (msg : Message) → Reads msg (get_fields ks msg).1
unfolding get_fields
get_fields-Reads [] msg = record {
  buffer_same = refl;
  length_same = refl;
  grows = omega arith;
  within = λ h. h;
  flag_kept = λ h. h;
}
get_fields-Reads (k ∷ ks) msg =
    Reads-trans (get_field-Reads k msg) (get_fields-Reads ks (get_field k msg).1)

-- `get<T>()` reads only what the message holds. If the next `w` bytes are within the length and
-- the buffer it returns them and moves past them; otherwise it returns 0, stays, and sets the flag.
pub get-cases :
    (w : ℕ) (msg : Message)
    → ((msg.position + w ≤ msg.length + 8)
        × (msg.position + w < max_size)
        × (get w msg ≡ (
          from_le (read msg.buffer msg.position w),
          record msg { position = msg.position + w },
        )))
      ⊎ (((msg.length + 8 < msg.position + w) ⊎ (max_size ≤ msg.position + w))
          × (get w msg ≡ (0, record msg { overrun = true })))
unfolding get fits
get-cases w msg = elim (Bool-cases (fits msg w)) [
  | inl ok ↦
      let (l, b) = fits_bounds msg w ok in
      let e : u16 (msg.position + w) ≡ msg.position + w = omega arith in inl (l, b, rw (ok, e))
  | inr short ↦ inr (ground arith, rw short)
]

pub get_ok :
    (w : ℕ) (msg : Message)
    → msg.position + w ≤ msg.length + 8
    → msg.position + w < max_size
    → get w msg
      ≡ (from_le (read msg.buffer msg.position w), record msg { position = msg.position + w })
get_ok w msg l b = ground (arith, get-cases w msg)
