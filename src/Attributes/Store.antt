-- ===== src/Attributes/Store.antt =====
-- The attributes of src/item.cpp as a map from types to values.
use zenonia.Base.{
  ℕ, ◌≡◌, refl, ap, ◌∙◌, true, false, none, some, List, [], ◌∷◌, ◌==◌, if◌then◌else◌, arith,
  Bool-cases, Option-cases, inl, inr,
}
use zenonia.Attributes.{
  Value, integer, string, ItemAttributes, find, put, get_existing_attr, set_attr, Item,
  is_int_attr_type, is_str_attr_type, is_empty, get_int_attr, get_str_attr, set_int_attr,
  set_str_attr,
}

find-put :
    (k : ℕ) (v old : Value) (l : List (ℕ × Value))
    → find k l ≡ some old
    → find k (put k v l) ≡ some v
unfolding find put
find-put k v old [] e = absurd (cc)
find-put k v old ((j, u) ∷ l) e = ground (arith, e, find-put k v old l)

find-put_other :
    (k j : ℕ) (v : Value) (l : List (ℕ × Value)) → (j == k) ≡ false → find j (put k v l) ≡ find j l
unfolding find put
find-put_other k j v [] e = refl
find-put_other k j v ((m, u) ∷ l) e = ground (arith, e, find-put_other k j v l e)

present :
    (k : ℕ) (a : ItemAttributes) (old : Value)
    → get_existing_attr k a ≡ some old
    → (a.bits k ≡ true) × (find k a.attributes ≡ some old)
unfolding get_existing_attr
present k a old e = elim (Bool-cases (a.bits k)) [
  | inl there ↦ (there, rw (there, get_existing_attr) at e)
  | inr gone ↦ absurd (cc (rw (gone, get_existing_attr) at e))
]

get-put :
    (k : ℕ) (v old : Value) (a : ItemAttributes)
    → get_existing_attr k a ≡ some old
    → (j : ℕ)
    → get_existing_attr j (record a { attributes = put k v a.attributes })
      ≡ (if j == k then some v else get_existing_attr j a)
unfolding get_existing_attr
get-put k v old a e j =
    let there = present k a old e in
    elim (Bool-cases (j == k)) [
      | inl same ↦
          let at : j ≡ k = ground (arith, same) in
          rw same (
            ap (λ x. get_existing_attr x (record a { attributes = put k v a.attributes })) at
            ∙ rw (there.0, get_existing_attr) (find-put k v old a.attributes there.1))
      | inr apart ↦
          rw apart
            (ap (λ o. if a.bits j then o else none) (find-put_other k j v a.attributes apart))
    ]

pub get-set_attr :
    (j k : ℕ) (v : Value) (a : ItemAttributes)
    → get_existing_attr j (set_attr k v a) ≡ (if j == k then some v else get_existing_attr j a)
unfolding get_existing_attr set_attr
get-set_attr j k v a = elim (Option-cases (get_existing_attr k a)) [
  | inl missing ↦ ground (arith, missing, find)
  | inr (old, found) ↦ rw (found, set_attr) (get-put k v old a found j)
]

int-str : (k : ℕ) → is_int_attr_type k ≡ true → is_str_attr_type k ≡ false
int-str k e = ground (arith, e)

str-int : (k : ℕ) → is_str_attr_type k ≡ true → is_int_attr_type k ≡ false
str-int k e = ground (arith, e)

-- A set integer is what is found, and no other attribute changes.
pub get_int_attr-set_int_attr :
    (j k n : ℕ) (i : Item)
    → is_int_attr_type k ≡ true
    → get_int_attr j (set_int_attr k n i) ≡ (if j == k then n else get_int_attr j i)
unfolding get_int_attr set_int_attr
get_int_attr-set_int_attr j k n i kind = rw kind (
    rw (get-set_attr j k (integer n) i.attributes) (elim (Bool-cases (j == k)) [
      | inl same ↦
          let at : j ≡ k = ground (arith, same) in rw same (rw (ap is_int_attr_type at ∙ kind) refl)
      | inr apart ↦ rw apart refl
    ]))

pub get_str_attr-set_int_attr :
    (j k n : ℕ) (i : Item)
    → is_int_attr_type k ≡ true
    → get_str_attr j (set_int_attr k n i) ≡ get_str_attr j i
unfolding get_str_attr set_int_attr
get_str_attr-set_int_attr j k n i kind = rw kind (
    rw (get-set_attr j k (integer n) i.attributes) (elim (Bool-cases (j == k)) [
      | inl same ↦
          let at : j ≡ k = ground (arith, same) in
          rw (same, ap is_str_attr_type at ∙ int-str k kind) refl
      | inr apart ↦ rw apart refl
    ]))

pub get_int_attr-set_str_attr :
    (j k : ℕ) (bs : List ℕ) (i : Item)
    → is_str_attr_type k ≡ true
    → get_int_attr j (set_str_attr k bs i) ≡ get_int_attr j i
unfolding get_int_attr set_str_attr
get_int_attr-set_str_attr j k [] i kind = rw kind refl
get_int_attr-set_str_attr j k (b ∷ bs) i kind = rw kind (
    rw (get-set_attr j k (string (b ∷ bs)) i.attributes) (elim (Bool-cases (j == k)) [
      | inl same ↦
          let at : j ≡ k = ground (arith, same) in
          rw (same, ap is_int_attr_type at ∙ str-int k kind) refl
      | inr apart ↦ rw apart refl
    ]))

pub get_str_attr-set_str_attr :
    (j k : ℕ) (bs : List ℕ) (i : Item)
    → is_str_attr_type k ≡ true
    → is_empty bs ≡ false
    → get_str_attr j (set_str_attr k bs i) ≡ (if j == k then bs else get_str_attr j i)
unfolding get_str_attr set_str_attr
get_str_attr-set_str_attr j k bs i kind filled =
    rw (kind, filled)
      (rw (get-set_attr j k (string bs) i.attributes) (elim (Bool-cases (j == k)) [
        | inl same ↦
            let at : j ≡ k = ground (arith, same) in
            rw same (rw (ap is_str_attr_type at ∙ kind) refl)
        | inr apart ↦ rw apart refl
      ]))
