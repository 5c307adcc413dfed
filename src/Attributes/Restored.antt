-- ===== src/Attributes/Restored.antt =====
-- What is left of an item of src/item.cpp after it has been written and read.
use zenonia.Base.{ℕ, ◌≡◌, Bool, not, ◌&&◌, [], ◌∷◌, All, ◌==◌, if◌then◌else◌}
use zenonia.Containers.{ItemType}
use zenonia.Attributes.{Item, parts, has_attribute, is_empty, get_int_attr, get_str_attr}
use zenonia.Attributes.Loop.{store_all}
use zenonia.Attributes.Saved.{Storable}

-- Item `j` is `b` with all that `i` has to be saved: attributes that are saved if they are there, texts that
-- are saved if they are not empty, numbers that are saved if they are not 0, a decay that has begun as one
-- that is pending, and the count or the fluid.
pub record Restored (t : ItemType) (i b j : Item) : Type 0 where
  pub ints :
      All
        (λ (k : ℕ).
          get_int_attr k j ≡ (if has_attribute k i then get_int_attr k i else get_int_attr k b))
        (9 ∷ 10 ∷ 11 ∷ 12 ∷ 13 ∷ 14 ∷ 15 ∷ 17 ∷ [])
  pub strs :
      All
        (λ (k : ℕ).
          get_str_attr k j ≡ (if has_attribute k i then get_str_attr k i else get_str_attr k b))
        (6 ∷ 7 ∷ 8 ∷ 23 ∷ [])
  pub texts :
      All
        (λ (k : ℕ).
          get_str_attr k j
          ≡ (if is_empty (get_str_attr k i) then get_str_attr k b else get_str_attr k i))
        (2 ∷ 3 ∷ 5 ∷ [])
  pub numbers :
      All
        (λ (k : ℕ).
          get_int_attr k j ≡ (if get_int_attr k i == 0 then get_int_attr k b else get_int_attr k i))
        (0 ∷ 4 ∷ 20 ∷ [])
  pub decay : get_int_attr 18 j ≡ (if get_int_attr 18 i == 0 then get_int_attr 18 b else 2)
  pub fluid : get_int_attr 21 j ≡ (if t.fluid then get_int_attr 21 i else get_int_attr 21 b)
  pub count : j.count ≡ (if t.stackable && not t.fluid then i.count else b.count)

module _ (game : ℕ → Bool) (t : ItemType) (i b : Item) (h : Storable t i) where
  abbrev read_back : Item
  read_back = store_all game t (parts t i) b
