-- ===== src/Attributes/Saved.antt =====
-- An item that `serializeAttr` of src/item.cpp writes and `unserializeAttr` reads.
use zenonia.Base.{
  Bool, ℕ, ◌%◌, ◌^◌, ◌<◌, ◌≤◌, ◌≡◌, ◌⊎◌, refl, true, false, not, ◌&&◌, ◌||◌, List, [], ◌∷◌, length,
  All, ltb, ◌==◌, arith, Bool-cases, inl, inr,
}
use zenonia.Containers.{ItemType}
use zenonia.Attributes.{
  Item, Part, parts, has_attribute, is_empty, get_int_attr, get_str_attr, set_int_attr,
  get_sub_type, set_sub_type,
}
use zenonia.Attributes.Reading.{extended, store_number, store_text, shape_of}
use zenonia.Attributes.Loop.{IsRead}
use zenonia.Attributes.Effects.{
  Effect, sets_int, sets_str, sets_sub_type, Changes, set_int_attr-Changes, set_str_attr-Changes,
  Row, IsRow,
}

-- What of an item the code can bring back: values that fit what is written, charges on a type that has
-- them, an action id of at least 100 on a type that can be moved.
pub record Storable (t : ItemType) (i : Item) : Type 0 where
  pub texts : (k : ℕ) → length (get_str_attr k i) ≤ 65535
  pub ints : (k : ℕ) → get_int_attr k i < 2 ^ 32
  pub fluid : get_int_attr 21 i < 256
  pub count : i.count < 256
  pub charges :
      (get_int_attr 20 i ≡ 0)
      ⊎ ((get_int_attr 20 i < 65536)
          × (t.fluid ≡ false)
          × (t.stackable ≡ false)
          × ((t.charges == 0) ≡ false))
  pub action :
      (get_int_attr 0 i ≡ 0)
      ⊎ ((100 ≤ get_int_attr 0 i) × (get_int_attr 0 i < 65536) × (t.moveable ≡ true))
  pub duration : get_int_attr 17 i < 2 ^ 31
  pub decay : get_int_attr 18 i < 3
  pub hit_chance : extended (get_int_attr 14 i % 256) ≡ get_int_attr 14 i
  pub filled :
      All
        (λ (k : ℕ). has_attribute k i ≡ true → is_empty (get_str_attr k i) ≡ false)
        (6 ∷ 7 ∷ 8 ∷ 23 ∷ [])
  pub shoot_range : get_int_attr 15 i < 256

abbrev pub effects : ItemType → Item → List Effect
effects t i =
    sets_sub_type t.fluid (get_sub_type t i % 256)
    ∷ sets_int 20 (get_int_attr 20 i % 2 ^ 16)
    ∷ sets_int 0 (get_int_attr 0 i % 2 ^ 16)
    ∷ sets_str 3 (get_str_attr 3 i)
    ∷ sets_int 4 (get_int_attr 4 i % 256 ^ 4)
    ∷ sets_str 5 (get_str_attr 5 i)
    ∷ sets_str 2 (get_str_attr 2 i)
    ∷ sets_int 17 (get_int_attr 17 i % 256 ^ 4)
    ∷ sets_int 18 2
    ∷ sets_str 6 (get_str_attr 6 i)
    ∷ sets_str 7 (get_str_attr 7 i)
    ∷ sets_str 8 (get_str_attr 8 i)
    ∷ sets_int 9 (get_int_attr 9 i % 256 ^ 4)
    ∷ sets_int 10 (get_int_attr 10 i % 256 ^ 4)
    ∷ sets_int 11 (get_int_attr 11 i % 256 ^ 4)
    ∷ sets_int 12 (get_int_attr 12 i % 256 ^ 4)
    ∷ sets_int 24 0
    ∷ sets_int 13 (get_int_attr 13 i % 256 ^ 4)
    ∷ sets_int 14 (get_int_attr 14 i)
    ∷ sets_int 15 (get_int_attr 15 i % 256 ^ 1)
    ∷ sets_str 23 (get_str_attr 23 i)
    ∷ []

abbrev pub zip : List Effect → List Part → List Row
zip [] ps = []
zip (e ∷ es) [] = []
zip (e ∷ es) (p ∷ ps) = (e, p) ∷ zip es ps

abbrev pub rows : ItemType → Item → List Row
rows t i = zip (effects t i) (parts t i)

pub parts-IsRead : (t : ItemType) (i : Item) → Storable t i → All IsRead (parts t i)
unfolding shape_of
parts-IsRead t i h = (
  (λ c. (refl, omega arith, omega arith, omega arith)),
  (
    (λ c. (refl, omega arith, omega arith, omega arith)),
    (
      (λ c. (refl, omega arith, omega arith, omega arith)),
      (
        (λ c. (refl, h.texts 3, omega arith, omega arith)),
        (
          (λ c. (refl, omega arith, omega arith, omega arith)),
          (
            (λ c. (refl, h.texts 5, omega arith, omega arith)),
            (
              (λ c. (refl, h.texts 2, omega arith, omega arith)),
              (
                (λ c. (refl, omega arith, omega arith, omega arith)),
                (
                  (λ c. (refl, omega arith, omega arith, omega arith)),
                  (
                    (λ c. (refl, h.texts 6, omega arith, omega arith)),
                    (
                      (λ c. (refl, h.texts 7, omega arith, omega arith)),
                      (
                        (λ c. (refl, h.texts 8, omega arith, omega arith)),
                        (
                          (λ c. (refl, omega arith, omega arith, omega arith)),
                          (
                            (λ c. (refl, omega arith, omega arith, omega arith)),
                            (
                              (λ c. (refl, omega arith, omega arith, omega arith)),
                              (
                                (λ c. (refl, omega arith, omega arith, omega arith)),
                                (
                                  (λ c. (refl, omega arith, omega arith, omega arith)),
                                  (
                                    (λ c. (refl, omega arith, omega arith, omega arith)),
                                    (
                                      (λ c. (refl, omega arith, omega arith, omega arith)),
                                      (
                                        (λ c. (refl, omega arith, omega arith, omega arith)),
                                        ((λ c. (refl, h.texts 23, omega arith, omega arith)), tt),
                                      ),
                                    ),
                                  ),
                                ),
                              ),
                            ),
                          ),
                        ),
                      ),
                    ),
                  ),
                ),
              ),
            ),
          ),
        ),
      ),
    ),
  ),
)

-- The cases that need a fact of the item that was written.
module _ (game : ℕ → Bool) (t : ItemType) where
  counted :
      (n : ℕ)
      → n < 256
      → (i : Item) → Changes (sets_sub_type false n) i (record i { count = n % 2 ^ 8 })
  unfolding get_int_attr get_str_attr
  counted n small i = record { ints = λ j. ground arith; strs = λ j. refl; counts = omega arith }

  sub_type-IsRow :
      (n : ℕ)
      → n < 256
      → (i : Item) → (t.stackable || t.fluid) ≡ true
      → Changes (sets_sub_type t.fluid n) i (set_sub_type t n i)
  unfolding set_sub_type
  sub_type-IsRow n small i c = elim (Bool-cases t.fluid) [
    | inl fluid ↦
        let changes = set_int_attr-Changes 21 n i refl in
        rw (fluid, set_sub_type)
          (record { ints = changes.ints; strs = changes.strs; counts = changes.counts })
    | inr dry ↦
        let stacks : t.stackable ≡ true = ground (arith, c, dry) in
        rw (dry, stacks, set_sub_type) (counted n small i)
  ]

  charges-IsRow :
      (n : ℕ) (i : Item)
      → (t.fluid ≡ false) × (t.stackable ≡ false) × ((t.charges == 0) ≡ false)
      → Changes (sets_int 20 n) i (set_sub_type t n i)
  unfolding set_sub_type
  charges-IsRow n i (f, s, c) = rw (f, s, c) (set_int_attr-Changes 20 n i refl)

  imbuing-IsRow : (n : ℕ) (i : Item) → Changes (sets_int 24 0) i (set_int_attr 24 n i)
  unfolding set_int_attr get_int_attr
  imbuing-IsRow n i = record { ints = λ j. ground arith; strs = λ j. refl; counts = refl }

  action-IsRow : (n : ℕ) (i : Item) → 100 ≤ n → Changes (sets_int 0 n) i (store_number game t 4 n i)
  unfolding store_number
  action-IsRow n i big =
      let kept : ltb n 100 ≡ false = ground (arith, big) in
      rw kept (set_int_attr-Changes 0 n i refl)

  duration-IsRow :
      (n : ℕ) (i : Item) → n < 2 ^ 31 → Changes (sets_int 17 n) i (store_number game t 16 n i)
  unfolding store_number
  duration-IsRow n i small =
      let kept : ltb n (2 ^ 31) ≡ true = ground (arith, small) in
      rw kept (set_int_attr-Changes 17 n i refl)

  decay-IsRow :
      (n : ℕ) (i : Item) → (n == 0) ≡ false → Changes (sets_int 18 2) i (store_number game t 17 n i)
  unfolding store_number
  decay-IsRow n i some_state = rw some_state (set_int_attr-Changes 18 2 i refl)

  hit_chance-IsRow :
      (n m : ℕ) (i : Item) → extended m ≡ n → Changes (sets_int 14 n) i (store_number game t 32 m i)
  unfolding store_number
  hit_chance-IsRow n m i e = rw e (set_int_attr-Changes 14 n i refl)

charged :
    (t : ItemType) (n : ℕ)
    → (n ≡ 0)
      ⊎ ((n < 65536) × (t.fluid ≡ false) × (t.stackable ≡ false) × ((t.charges == 0) ≡ false))
    → not (n % 2 ^ 16 == 0) ≡ true
    → (t.fluid ≡ false) × (t.stackable ≡ false) × ((t.charges == 0) ≡ false)
charged t n (inl nought) c = absurd (ground (arith, nought, c))
charged t n (inr h) c = (h.1, h.2, h.3)

acted :
    (t : ItemType) (n : ℕ)
    → (n ≡ 0) ⊎ ((100 ≤ n) × (n < 65536) × (t.moveable ≡ true))
    → (t.moveable && not (n % 2 ^ 16 == 0)) ≡ true
    → 100 ≤ n % 2 ^ 16
acted t n (inl nought) c = absurd (ground (arith, nought, c))
acted t n (inr h) c = omega (arith, h.0, h.1)

decays : (n : ℕ) → ((n == 1) || (n == 2)) ≡ true → (n % 256 == 0) ≡ false
decays n c = ground (arith, c)

is_filled : (bs : List ℕ) → not (is_empty bs) ≡ true → is_empty bs ≡ false
is_filled [] c = absurd (cc c)
is_filled (b ∷ bs) c = refl

pub rows-IsRow :
    (game : ℕ → Bool) (t : ItemType) (i : Item) → Storable t i → All (IsRow game t) (rows t i)
unfolding store_number store_text
rows-IsRow game t i h = (
  (λ c j. sub_type-IsRow game t (get_sub_type t i % 256) (omega arith) j c),
  (
    (λ c j.
        charges-IsRow game t (get_int_attr 20 i % 2 ^ 16) j
          (charged t (get_int_attr 20 i) h.charges c)),
    (
      (λ c j.
          action-IsRow game t (get_int_attr 0 i % 2 ^ 16) j
            (acted t (get_int_attr 0 i) h.action c)),
      (
        (λ c j. set_str_attr-Changes 3 (get_str_attr 3 i) j refl (is_filled (get_str_attr 3 i) c)),
        (
          (λ c j. set_int_attr-Changes 4 _ j refl),
          (
            (λ c j.
                set_str_attr-Changes 5 (get_str_attr 5 i) j refl (is_filled (get_str_attr 5 i) c)),
            (
              (λ c j.
                  set_str_attr-Changes 2 (get_str_attr 2 i) j refl
                    (is_filled (get_str_attr 2 i) c)),
              (
                (λ c j.
                    duration-IsRow game t (get_int_attr 17 i % 256 ^ 4) j
                      (omega (arith, h.duration))),
                (
                  (λ c j.
                      decay-IsRow game t (get_int_attr 18 i % 256) j
                        (decays (get_int_attr 18 i) c)),
                  (
                    (λ c j. set_str_attr-Changes 6 (get_str_attr 6 i) j refl (h.filled.0 c)),
                    (
                      (λ c j. set_str_attr-Changes 7 (get_str_attr 7 i) j refl (h.filled.1.0 c)),
                      (
                        (λ c j.
                            set_str_attr-Changes 8 (get_str_attr 8 i) j refl (h.filled.1.1.0 c)),
                        (
                          (λ c j. set_int_attr-Changes 9 _ j refl),
                          (
                            (λ c j. set_int_attr-Changes 10 _ j refl),
                            (
                              (λ c j. set_int_attr-Changes 11 _ j refl),
                              (
                                (λ c j. set_int_attr-Changes 12 _ j refl),
                                (
                                  (λ c j. imbuing-IsRow game t (get_int_attr 24 i % 256 ^ 4) j),
                                  (
                                    (λ c j. set_int_attr-Changes 13 _ j refl),
                                    (
                                      (λ c j.
                                          hit_chance-IsRow game t (get_int_attr 14 i)
                                            (get_int_attr 14 i % 256 ^ 1) j h.hit_chance),
                                      (
                                        (λ c j. set_int_attr-Changes 15 _ j refl),
                                        (
                                          (λ c j.
                                              set_str_attr-Changes 23 (get_str_attr 23 i) j refl
                                                (h.filled.1.1.1.0 c)),
                                          tt,
                                        ),
                                      ),
                                    ),
                                  ),
                                ),
                              ),
                            ),
                          ),
                        ),
                      ),
                    ),
                  ),
                ),
              ),
            ),
          ),
        ),
      ),
    ),
  ),
)
