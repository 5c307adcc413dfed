-- ===== src/Attributes/Effects.antt =====
-- What each case of `readAttr` of src/item.cpp does to an item, and what all of them do in a row.
use zenonia.Base.{
  ℕ, ◌≡◌, refl, ap, ◌∙◌, Bool, true, false, not, ◌&&◌, List, [], ◌∷◌, map, All, ◌==◌, if◌then◌else◌,
  arith,
}
use zenonia.Containers.{ItemType}
use zenonia.Attributes.{
  Item, Part, is_int_attr_type, is_str_attr_type, is_empty, get_int_attr, get_str_attr,
  set_int_attr, set_str_attr,
}
use zenonia.Attributes.Reading.{store}
use zenonia.Attributes.Store.{
  get_int_attr-set_int_attr, get_str_attr-set_int_attr, get_int_attr-set_str_attr,
  get_str_attr-set_str_attr,
}
use zenonia.Attributes.Loop.{store_all}

pub data Effect : Type 0 where
  sets_int : ℕ → ℕ → Effect
  sets_str : ℕ → List ℕ → Effect
  sets_sub_type : Bool → ℕ → Effect

-- What is found after it, if it takes place.
abbrev pub int_after : Bool → Effect → ℕ → ℕ → ℕ
int_after c (sets_int k n) j d = if j == k then (if c then n else d) else d
int_after c (sets_str k bs) j d = d
int_after c (sets_sub_type fluid n) j d = if j == 21 then (if c && fluid then n else d) else d

abbrev pub str_after : Bool → Effect → ℕ → List ℕ → List ℕ
str_after c (sets_int k n) j d = d
str_after c (sets_str k bs) j d = if j == k then (if c then bs else d) else d
str_after c (sets_sub_type fluid n) j d = d

abbrev pub count_after : Bool → Effect → ℕ → ℕ
count_after c (sets_int k n) d = d
count_after c (sets_str k bs) d = d
count_after c (sets_sub_type fluid n) d = if c && not fluid then n else d

-- An item is changed by the effect and no other.
pub record Changes (e : Effect) (i i' : Item) : Type 0 where
  pub ints : (j : ℕ) → get_int_attr j i' ≡ int_after true e j (get_int_attr j i)
  pub strs : (j : ℕ) → get_str_attr j i' ≡ str_after true e j (get_str_attr j i)
  pub counts : i'.count ≡ count_after true e i.count

pub set_int_attr-Changes :
    (k n : ℕ) (i : Item) → is_int_attr_type k ≡ true → Changes (sets_int k n) i (set_int_attr k n i)
unfolding set_int_attr
set_int_attr-Changes k n i kind = record {
  ints = λ j. get_int_attr-set_int_attr j k n i kind;
  strs = λ j. get_str_attr-set_int_attr j k n i kind;
  counts = rw kind refl;
}

pub set_str_attr-Changes :
    (k : ℕ) (bs : List ℕ) (i : Item)
    → is_str_attr_type k ≡ true
    → is_empty bs ≡ false
    → Changes (sets_str k bs) i (set_str_attr k bs i)
unfolding set_str_attr
set_str_attr-Changes k bs i kind filled = record {
  ints = λ j. get_int_attr-set_str_attr j k bs i kind;
  strs = λ j. get_str_attr-set_str_attr j k bs i kind filled;
  counts = rw (kind, filled) refl;
}

-- A part with its effect.
abbrev pub Row : Type 0
Row = Effect × Part

abbrev pub IsRow : (ℕ → Bool) → ItemType → Row → Type 0
IsRow game t (e, (c, code, v)) = c ≡ true → (i : Item) → Changes e i (store game t code v i)

abbrev pub ints_after : ℕ → List Row → ℕ → ℕ
ints_after j [] d = d
ints_after j ((e, (c, code, v)) ∷ rows) d = ints_after j rows (int_after c e j d)

abbrev pub strs_after : ℕ → List Row → List ℕ → List ℕ
strs_after j [] d = d
strs_after j ((e, (c, code, v)) ∷ rows) d = strs_after j rows (str_after c e j d)

abbrev pub counts_after : List Row → ℕ → ℕ
counts_after [] d = d
counts_after ((e, (c, code, v)) ∷ rows) d = counts_after rows (count_after c e d)

int_after-false : (e : Effect) (j d : ℕ) → d ≡ int_after false e j d
int_after-false (sets_int k n) j d = ground arith
int_after-false (sets_str k bs) j d = refl
int_after-false (sets_sub_type fluid n) j d = ground arith

str_after-false : (e : Effect) (j : ℕ) (d : List ℕ) → d ≡ str_after false e j d
str_after-false (sets_int k n) j d = refl
str_after-false (sets_str k bs) j d = ground arith
str_after-false (sets_sub_type fluid n) j d = refl

count_after-false : (e : Effect) (d : ℕ) → d ≡ count_after false e d
count_after-false (sets_int k n) d = refl
count_after-false (sets_str k bs) d = refl
count_after-false (sets_sub_type fluid n) d = refl

module _ (game : ℕ → Bool) (t : ItemType) where
  pub get_int_attr-store_all :
      (j : ℕ) (rows : List Row) (i : Item)
      → All (IsRow game t) rows
      → get_int_attr j (store_all game t (map (λ (r : Row). r.1) rows) i)
        ≡ ints_after j rows (get_int_attr j i)
  get_int_attr-store_all j [] i h = refl
  get_int_attr-store_all j ((e, (true, code, v)) ∷ rows) i h =
      get_int_attr-store_all j rows (store game t code v i) h.1
      ∙ ap (ints_after j rows) ((h.0 refl i).ints j)
  get_int_attr-store_all j ((e, (false, code, v)) ∷ rows) i h =
      get_int_attr-store_all j rows i h.1
      ∙ ap (ints_after j rows) (int_after-false e j (get_int_attr j i))

  pub get_str_attr-store_all :
      (j : ℕ) (rows : List Row) (i : Item)
      → All (IsRow game t) rows
      → get_str_attr j (store_all game t (map (λ (r : Row). r.1) rows) i)
        ≡ strs_after j rows (get_str_attr j i)
  get_str_attr-store_all j [] i h = refl
  get_str_attr-store_all j ((e, (true, code, v)) ∷ rows) i h =
      get_str_attr-store_all j rows (store game t code v i) h.1
      ∙ ap (strs_after j rows) ((h.0 refl i).strs j)
  get_str_attr-store_all j ((e, (false, code, v)) ∷ rows) i h =
      get_str_attr-store_all j rows i h.1
      ∙ ap (strs_after j rows) (str_after-false e j (get_str_attr j i))

  pub count-store_all :
      (rows : List Row) (i : Item)
      → All (IsRow game t) rows
      → (store_all game t (map (λ (r : Row). r.1) rows) i).count ≡ counts_after rows i.count
  count-store_all [] i h = refl
  count-store_all ((e, (true, code, v)) ∷ rows) i h =
      count-store_all rows (store game t code v i) h.1
      ∙ ap (counts_after rows) ((h.0 refl i).counts)
  count-store_all ((e, (false, code, v)) ∷ rows) i h =
      count-store_all rows i h.1 ∙ ap (counts_after rows) (count_after-false e i.count)
