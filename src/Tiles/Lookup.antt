-- ===== src/Tiles/Lookup.antt =====
-- What `getTile` of src/map.cpp finds after `setTile`.
use zenonia.Base.{
  ℕ, ◌%◌, ◌<◌, ◌≡◌, refl, sym, ap, ◌∙◌, Bool, true, false, ◌&&◌, Option, none, some, leb, ◌==◌,
  if◌then◌else◌, arith, Bool-cases, Option-cases, inl, inr,
}
use zenonia.Tiles.{Map, get_leaf, set_tile, get_tile}
use zenonia.Tiles.Growth.{same_bits}
use zenonia.Tiles.Squares.{same_coordinate_iff}
use zenonia.Tiles.Setting.{same_square, IsMap, tile_of}
use zenonia.Tiles.Placing.{place-IsMap, stored, stored-same, stored-other}

set_tile-within :
    (merge : ℕ → ℕ → ℕ) (x y z tile : ℕ) (m : Map) (h : IsMap m)
    → z < 16
    → set_tile merge x y z tile m ≡ stored m h x y merge z tile
unfolding set_tile
set_tile-within merge x y z tile m h lt =
    let inside : leb 16 z ≡ false = ground (arith, lt) in rw inside refl

get_tile-above : (x y z : ℕ) (m : Map) → leb 16 z ≡ true → get_tile x y z m ≡ none
unfolding get_tile
get_tile-above x y z m e = rw e refl

get_tile-tile_of :
    (x y z : ℕ) (m : Map)
    → leb 16 z ≡ false
    → get_tile x y z m ≡ tile_of m.leaves (get_leaf x y m.root) x y z
unfolding get_tile
get_tile-tile_of x y z m within = elim (Option-cases (get_leaf x y m.root)) [
  | inl e ↦ rw (within, e) refl
  | inr (i, e) ↦ rw (within, e) refl
]

no_level : (a b : Bool) (v w : Option ℕ) → (if a && b && false then v else w) ≡ w
no_level a b v w = ground arith

-- `setTile` keeps a map's form.
pub set_tile-IsMap :
    (merge : ℕ → ℕ → ℕ) (x y z tile : ℕ) (m : Map) → IsMap m → IsMap (set_tile merge x y z tile m)
unfolding set_tile
set_tile-IsMap merge x y z tile m h = elim (Bool-cases (leb 16 z)) [
  | inl out ↦ rw out h
  | inr within ↦
      let kept = place-IsMap m h x y in
      rw within
        (record { deep = kept.deep; rooted = kept.rooted; used = kept.used; own = kept.own })
]

interchange : (a b c d : Bool) → ((a && b) && c && d) ≡ ((a && c) && (b && d))
interchange true b c d = ground arith
interchange false b c d = refl

-- A position is its square with two offsets.
same_position :
    (x y x' y' : ℕ)
    → x < 65536
    → y < 65536
    → x' < 65536
    → y' < 65536
    → (same_square x y x' y' && (x' % 8 == x % 8) && (y' % 8 == y % 8)) ≡ ((x' == x) && (y' == y))
same_position x y x' y' fx fy fx' fy' =
    interchange (same_bits 13 x x') (same_bits 13 y y') (x' % 8 == x % 8) (y' % 8 == y % 8)
    ∙ rw (same_coordinate_iff x x' fx fx', same_coordinate_iff y y' fy fy') refl

swap : (p q a b r : Bool) → (p && q) ≡ (a && b) → (r && p && q) ≡ (a && b && r)
swap p q a b r e = ground (arith, e)

by_square :
    (s p q a b r : Bool) (v w t : Option ℕ)
    → (s && p && q) ≡ (a && b)
    → (s ≡ true → t ≡ (if r && p && q then v else w))
    → (s ≡ false → t ≡ w)
    → t ≡ (if a && b && r then v else w)
by_square true p q a b r v w t e same other =
    same refl ∙ ap (λ (c : Bool). if c then v else w) (swap p q a b r e)
by_square false p q a b r v w t e same other = other refl ∙ ground (arith, e)

-- What the store holds afterwards, by square.
tile_of-stored :
    (merge : ℕ → ℕ → ℕ) (x y z tile : ℕ) (m : Map) (h : IsMap m) (x' y' z' : ℕ)
    → x < 65536
    → y < 65536
    → x' < 65536
    → y' < 65536
    → tile_of
        (stored m h x y merge z tile).leaves
        (get_leaf x' y' (stored m h x y merge z tile).root)
        x'
        y'
        z'
      ≡ (if (x' == x) && (y' == y) && (z' == z)
          then some (elim (tile_of m.leaves (get_leaf x y m.root) x y z) [
            | none ↦ tile
            | some old ↦ merge old tile
          ])
          else tile_of m.leaves (get_leaf x' y' m.root) x' y' z')
tile_of-stored merge x y z tile m h x' y' z' fx fy fx' fy' =
    by_square (same_square x y x' y') (x' % 8 == x % 8) (y' % 8 == y % 8) (x' == x) (y' == y)
      (z' == z) _ _ _ (same_position x y x' y' fx fy fx' fy')
      (stored-same m h x y merge z tile x' y' z') (stored-other m h x y merge z tile x' y' z')

-- After `setTile` at a position of a map, with coordinates of 16 bits, `getTile` finds the new tile
-- there, or what the old and the new tile are made into, and all other positions hold what they held.
pub get_tile-set_tile :
    (merge : ℕ → ℕ → ℕ) (x y z tile : ℕ) (m : Map) (x' y' z' : ℕ)
    → IsMap m
    → x < 65536
    → y < 65536
    → x' < 65536
    → y' < 65536
    → z < 16
    → get_tile x' y' z' (set_tile merge x y z tile m) ≡ (
        if (x' == x) && (y' == y) && (z' == z)
        then some (elim (get_tile x y z m) [ none ↦ tile | some old ↦ merge old tile ])
        else get_tile x' y' z' m)
get_tile-set_tile merge x y z tile m x' y' z' h fx fy fx' fy' lt =
    let inside : leb 16 z ≡ false = ground (arith, lt) in
    elim (Bool-cases (leb 16 z')) [
      | inl above ↦
          let other : (z' == z) ≡ false = ground (arith, above, lt) in
          get_tile-above x' y' z' (set_tile merge x y z tile m) above
          ∙ sym (rw other (no_level (x' == x) (y' == y) _ _ ∙ get_tile-above x' y' z' m above))
      | inr within ↦
          ap (get_tile x' y' z') (set_tile-within merge x y z tile m h lt)
          ∙ get_tile-tile_of x' y' z' (stored m h x y merge z tile) within
          ∙ tile_of-stored merge x y z tile m h x' y' z' fx fy fx' fy'
          ∙ rw (get_tile-tile_of x y z m inside, get_tile-tile_of x' y' z' m within) refl
    ]
