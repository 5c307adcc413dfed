-- ===== src/Attributes/Rounds.antt =====
-- The loop of `unserializeAttr` in src/item.cpp comes to an end, and what ends it with the result false.
use zenonia.Base.{
  Bool, ℕ, zero, suc, ◌+◌, ◌<◌, ◌≤◌, ◌≡◌, ◌⊎◌, refl, sym, ap, ◌∙◌, true, false, Option, none, some,
  List, [], ◌∷◌, ◌++◌, append_assoc, length, drop, length-drop, All, ltb, ◌==◌, if◌then◌else◌,
  arith, Bool-cases, Option-cases, inl, inr,
}
use zenonia.Bytes.{le_bytes}
use zenonia.Containers.{ItemType}
use zenonia.Otb.PropStream.{
  Stream, Shape, number, text, read, read_text, read_string, read_number, read_text_item, read_item,
}
use zenonia.Otb.PropStream as PropStream
use zenonia.Otb.PropStream.RoundTrip.{read-append, item_bytes}
use zenonia.Attributes.{CustomAttribute, int64_value, double_value, bool_value, Item, Part}
use zenonia.Attributes.Reading.{
  as_number, as_text, unserialize_value, unserialize_custom, read_custom, read_customs,
  read_custom_attributes, set_custom_attribute, shape_of, store, read_attr, unserialize_attr,
}
use zenonia.Attributes.Loop.{IsRead, parts_bytes, round, read_attr-append}

read-shorter :
    (w : ℕ) (s : Stream) (v : ℕ) (s' : Stream) → read w s ≡ some (v, s') → length s' + w ≤ length s
unfolding read
read-shorter w s v s' e = elim (Bool-cases (ltb (length s) w)) [
  | inl short ↦ absurd (cc (rw (short, read) at e))
  | inr enough ↦
      let same : drop w s ≡ s' = cc (rw (enough, read) at e) in
      ground (arith, enough, length-drop w s, ap length same)
]

read_text-shorter :
    (n : ℕ) (s bs s' : Stream) → read_text n s ≡ some (bs, s') → length s' ≤ length s
unfolding read_text
read_text-shorter n s bs s' e = elim (Bool-cases (ltb (length s) n)) [
  | inl short ↦ absurd (cc (rw (short, read_text) at e))
  | inr enough ↦
      let same : drop n s ≡ s' = cc (rw (enough, read_text) at e) in
      ground (arith, length-drop n s, ap length same)
]

-- What `readString` leaves.
text-shorter : (s : Stream) → length (read_string s).1 ≤ length s
unfolding read_string
text-shorter s = elim (Option-cases (read 2 s)) [
  | inl missing ↦ rw (missing, read_string) (omega arith)
  | inr ((k, s'), found) ↦ elim (Option-cases (read_text k s')) [
    | inl short ↦ rw (found, read_string) (rw (short) (omega (arith, read-shorter 2 s k s' found)))
    | inr ((bs, s''), whole) ↦
        rw (found, read_string)
          (rw whole
            (omega (arith, read-shorter 2 s k s' found, read_text-shorter k s' bs s'' whole)))
  ]
]

read_item-shorter :
    (k : Shape) (s : Stream) (v : PropStream.Item) (s' : Stream)
    → read_item k s ≡ some (v, s')
    → length s' ≤ length s
unfolding read_item read_number read_text_item
read_item-shorter (Shape.number w) s v s' e = elim (Option-cases (read w s)) [
  | inl missing ↦ absurd (cc (rw (missing, read_number) at e))
  | inr ((n, rest), found) ↦
      let same : rest ≡ s' = cc (rw (found, read_number) at e) in
      omega (arith, read-shorter w s n rest found, ap length same)
]
read_item-shorter Shape.text s v s' e = elim (Option-cases (read_string s).0) [
  | inl missing ↦ absurd (cc (rw (missing, read_text_item) at e))
  | inr (bs, found) ↦
      let same : (read_string s).1 ≡ s' = cc (rw (found, read_text_item) at e) in
      omega (arith, text-shorter s, ap length same)
]

-- What follows from an `if` that has a value.
by_if :
    {A : Type 0} {P : Type 0} (c : Bool) {x y o : A}
    → (x ≡ o → P)
    → (y ≡ o → P)
    → (if c then x else y) ≡ o
    → P
by_if true left right e = left e
by_if false left right e = right e

as_number-shorter :
    (kind : ℕ → CustomAttribute) (w : ℕ) (s : Stream) (v : CustomAttribute) (s' : Stream)
    → as_number kind (read w s) ≡ some (v, s')
    → length s' ≤ length s
as_number-shorter kind w s v s' e = elim (Option-cases (read w s)) [
  | inl missing ↦ absurd (cc (rw missing at e))
  | inr ((n, rest), found) ↦
      let same : rest ≡ s' = cc (rw found at e) in
      omega (arith, read-shorter w s n rest found, ap length same)
]

as_text-shorter :
    (s : Stream) (v : CustomAttribute) (s' : Stream)
    → as_text (read_string s) ≡ some (v, s')
    → length s' ≤ length s
as_text-shorter s v s' e = elim (Option-cases (read_string s).0) [
  | inl missing ↦ absurd (cc (rw missing at e))
  | inr (bs, found) ↦
      let same : (read_string s).1 ≡ s' = cc (rw found at e) in
      omega (arith, text-shorter s, ap length same)
]

unserialize_value-shorter :
    (pos : ℕ) (s : Stream) (v : CustomAttribute) (s' : Stream)
    → unserialize_value pos s ≡ some (v, s')
    → length s' ≤ length s
unfolding unserialize_value
unserialize_value-shorter pos s v s' = by_if (pos == 1) (as_text-shorter s v s') (
    by_if (pos == 2) (as_number-shorter int64_value 8 s v s') (
      by_if (pos == 3) (as_number-shorter double_value 8 s v s')
        (by_if (pos == 4) (as_number-shorter bool_value 1 s v s') (λ e. absurd (cc e)))))

unserialize_custom-shorter :
    (s : Stream) (v : CustomAttribute) (s' : Stream)
    → unserialize_custom s ≡ some (v, s')
    → length s' ≤ length s
unfolding unserialize_custom
unserialize_custom-shorter s v s' e = elim (Option-cases (read 1 s)) [
  | inl missing ↦ absurd (cc (rw (missing, unserialize_custom) at e))
  | inr ((pos, rest), found) ↦
      let shorter = unserialize_value-shorter pos rest v s' (rw (found, unserialize_custom) at e) in
      omega (arith, read-shorter 1 s pos rest found, shorter)
]

read_custom-shorter :
    (s : Stream) (key : List ℕ) (v : CustomAttribute) (s' : Stream)
    → read_custom s ≡ some (key, v, s')
    → length s' ≤ length s
unfolding read_custom
read_custom-shorter s key v s' e = elim (Option-cases (read_string s).0) [
  | inl missing ↦ absurd (cc (rw (missing, read_custom) at e))
  | inr (bs, found) ↦ elim (Option-cases (unserialize_custom (read_string s).1)) [
    | inl cut ↦ absurd (cc (rw cut at (rw (found, read_custom) at e)))
    | inr ((u, rest), whole) ↦
        let same : rest ≡ s' = cc (rw whole at (rw (found, read_custom) at e)) in
        let shorter = unserialize_custom-shorter (read_string s).1 u rest whole in
        omega (arith, text-shorter s, shorter, ap length same)
  ]
]

read_customs-shorter :
    (size : ℕ) (i : Item) (s : Stream) (j : Item) (s' : Stream)
    → read_customs size i s ≡ some (j, s')
    → length s' ≤ length s
unfolding read_customs
read_customs-shorter zero i s j s' e = let same : s ≡ s' = cc e in omega (arith, ap length same)
read_customs-shorter (suc size) i s j s' e = elim (Option-cases (read_custom s)) [
  | inl cut ↦ absurd (cc (rw (cut, read_customs) at e))
  | inr ((key, v, rest), found) ↦
      let shorter =
        read_customs-shorter size (set_custom_attribute key v i) rest j s'
          (rw (found, read_customs) at e) in
      omega (arith, read_custom-shorter s key v rest found, shorter)
]

read_custom_attributes-shorter :
    (i : Item) (s : Stream) (j : Item) (s' : Stream)
    → read_custom_attributes i s ≡ some (j, s')
    → length s' ≤ length s
unfolding read_custom_attributes
read_custom_attributes-shorter i s j s' e = elim (Option-cases (read 8 s)) [
  | inl missing ↦ absurd (cc (rw (missing, read_custom_attributes) at e))
  | inr ((size, rest), found) ↦
      let shorter =
        read_customs-shorter size i rest j s' (rw (found, read_custom_attributes) at e) in
      omega (arith, read-shorter 8 s size rest found, shorter)
]

module _ (game : ℕ → Bool) (t : ItemType) where
  read_attr-shorter :
      (code : ℕ) (i : Item) (s : Stream) (j : Item) (s' : Stream)
      → read_attr game t code i s ≡ some (j, s')
      → length s' ≤ length s
  unfolding read_attr
  read_attr-shorter code i s j s' e = elim (Option-cases (shape_of code)) [
    | inl unknown ↦
        by_if (code == 36) (read_custom_attributes-shorter i s j s') (λ e'. absurd (cc e'))
          (rw (unknown, read_attr) at e)
    | inr (k, known) ↦ elim (Option-cases (read_item k s)) [
      | inl missing ↦ absurd (cc (rw missing at (rw (known, read_attr) at e)))
      | inr ((v, rest), found) ↦
          let same : rest ≡ s' = cc (rw found at (rw (known, read_attr) at e)) in
          omega (arith, read_item-shorter k s v rest found, ap length same)
    ]
  ]

  -- The rest of a round.
  abbrev after : ℕ → Option (Item × Stream) → Option (Item × Stream)
  after n none = none
  after n (some (j, s'')) = unserialize_attr game t n j s''

  stop :
      (n : ℕ) (i : Item) (s : Stream)
      → read 1 s ≡ none
      → unserialize_attr game t (suc n) i s ≡ some (i, s)
  unfolding unserialize_attr
  stop n i s e = rw (e, unserialize_attr) refl

  step :
      (n : ℕ) (i : Item) (s : Stream) (code : ℕ) (s' : Stream) (o : Option (Item × Stream))
      → read 1 s ≡ some (code, s')
      → (code == 0) ≡ false
      → read_attr game t code i s' ≡ o
      → unserialize_attr game t (suc n) i s ≡ after n o
  step n i s code s' o e live r = round game t n i s code s' e ∙ rw (live, r) refl

  quit :
      (n : ℕ) (i : Item) (s : Stream) (code : ℕ) (s' : Stream)
      → read 1 s ≡ some (code, s')
      → (code == 0) ≡ true
      → unserialize_attr game t (suc n) i s ≡ some (i, s')
  quit n i s code s' e last = round game t n i s code s' e ∙ rw last refl

  -- With more rounds than the stream has bytes the number of rounds makes no difference, so the loop comes to
  -- its end in them.
  pub unserialize_attr-rounds :
      (n m : ℕ) (i : Item) (s : Stream)
      → length s < n
      → length s < m
      → unserialize_attr game t n i s ≡ unserialize_attr game t m i s
  unserialize_attr-rounds zero m i s hn hm = absurd (omega arith)
  unserialize_attr-rounds (suc n) zero i s hn hm = absurd (omega arith)
  unserialize_attr-rounds (suc n) (suc m) i s hn hm = elim (Option-cases (read 1 s)) [
    | inl ended ↦ stop n i s ended ∙ sym (stop m i s ended)
    | inr ((code, s'), found) ↦
        let shorter = read-shorter 1 s code s' found in
        elim (Bool-cases (code == 0)) [
          | inl last ↦ quit n i s code s' found last ∙ sym (quit m i s code s' found last)
          | inr live ↦ elim (Option-cases (read_attr game t code i s')) [
            | inl wrong ↦
                step n i s code s' none found live wrong
                ∙ sym (step m i s code s' none found live wrong)
            | inr ((j, s''), well) ↦
                let shorter_yet = read_attr-shorter code i s' j s'' well in
                step n i s code s' (some (j, s'')) found live well
                ∙ unserialize_attr-rounds n m j s'' (omega arith) (omega arith)
                ∙ sym (step m i s code s' (some (j, s'')) found live well)
          ]
        ]
  ]

  -- A code that no case reads, custom attributes that cannot be read, or a value that is cut off.
  abbrev pub IsWrong : ℕ → Stream → Type 0
  IsWrong code rest =
      ((shape_of code ≡ none)
        × (((code == 36) ≡ false) ⊎ ((i : Item) → read_custom_attributes i rest ≡ none)))
      ⊎ ((k : Shape) × (shape_of code ≡ some k) × (read_item k rest ≡ none))

  read_attr-none :
      (code : ℕ) (i : Item) (rest : Stream)
      → IsWrong code rest
      → read_attr game t code i rest ≡ none
  unfolding read_attr
  read_attr-none code i rest (inl (unknown, inl other)) = rw (unknown, read_attr) (rw other refl)
  read_attr-none code i rest (inl (unknown, inr cut)) =
      rw (unknown, read_attr)
        (elim (Bool-cases (code == 36)) [
          | inl custom ↦ rw custom (cut i)
          | inr other ↦ rw other refl
        ])
  read_attr-none code i rest (inr (k, known, cut)) = rw (known, read_attr) (rw cut refl)

  -- Behind parts that can be read, a code that no case reads, a value that is cut off, or custom attributes that cannot
  -- be read make the result false, in any number of rounds that is enough for the parts.
  pub unserialize_attr-wrong :
      (ps : List Part) (n : ℕ) (i : Item) (code : ℕ) (rest : Stream)
      → All IsRead ps
      → length ps < n
      → 0 < code
      → code < 256
      → IsWrong code rest
      → unserialize_attr game t n i (parts_bytes ps ++ code ∷ rest) ≡ none
  unfolding le_bytes
  unserialize_attr-wrong ps zero i code rest h enough live fits wrong = absurd (omega arith)
  unserialize_attr-wrong [] (suc n) i code rest h enough live fits wrong =
      step n i (code ∷ rest) code rest none
        (ap (λ c. read 1 (c ∷ rest)) (omega arith) ∙ read-append 1 code rest (omega arith))
        (ground (arith, live)) (read_attr-none code i rest wrong)
  unserialize_attr-wrong ((true, c, v) ∷ ps) (suc n) i code rest h enough live fits wrong =
      let known = h.0 refl in
      let s = item_bytes v ++ (parts_bytes ps ++ code ∷ rest) in
      ap (unserialize_attr game t (suc n) i) (simp append_assoc refl)
      ∙ step n i (le_bytes 1 c ++ s) c s (some (store game t c v i, parts_bytes ps ++ code ∷ rest))
          (read-append 1 c s (omega (arith, known.3))) (ground (arith, known.2))
          (read_attr-append game t c v i (parts_bytes ps ++ code ∷ rest) known.0 known.1)
      ∙ unserialize_attr-wrong ps n (store game t c v i) code rest h.1 (omega arith) live fits wrong
  unserialize_attr-wrong ((false, c, v) ∷ ps) (suc n) i code rest h enough live fits wrong =
      unserialize_attr-wrong ps (suc n) i code rest h.1 (omega arith) live fits wrong
