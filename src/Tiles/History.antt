-- ===== src/Tiles/History.antt =====
-- All calls of `setTile` of src/map.cpp on a new map, against a record of the calls.
use zenonia.Base.{
  ℕ, ◌<◌, ◌≡◌, refl, ap, ◌∙◌, true, ◌&&◌, Option, none, some, List, [], ◌∷◌, All, leb, ◌==◌,
  if◌then◌else◌, arith, Bool-cases, inl, inr,
}
use zenonia.Tiles.{no_children, new_leaf, Map, get_leaf, set_tile, get_tile}
use zenonia.Tiles.Setting.{IsMap}
use zenonia.Tiles.Lookup.{get_tile-set_tile, set_tile-IsMap}

-- `Map` as it is constructed
abbrev pub new_map : Map
new_map = record { root = no_children; leaves = λ i. new_leaf; next = 0 }

-- A call of `setTile`, with coordinates of 16 bits.
pub record Call : Type 0 where
  pub x : ℕ
  pub y : ℕ
  pub z : ℕ
  pub tile : ℕ

abbrev pub Fits : Call → Type 0
Fits c = (c.x < 65536) × (c.y < 65536)

-- The calls, the last one first.
abbrev pub set_tiles : (ℕ → ℕ → ℕ) → List Call → Map
set_tiles merge [] = new_map
set_tiles merge (c ∷ cs) = set_tile merge c.x c.y c.z c.tile (set_tiles merge cs)

-- The tile that the calls alone say: calls for a layer that a map does not have count for nothing.
abbrev pub recorded : (ℕ → ℕ → ℕ) → List Call → ℕ → ℕ → ℕ → Option ℕ
recorded merge [] x y z = none
recorded merge (c ∷ cs) x y z =
    let tile' : ℕ = elim (recorded merge cs c.x c.y c.z) [
      | none ↦ c.tile
      | some old ↦ merge old c.tile
    ] in
    let rest = recorded merge cs x y z in
    if leb 16 c.z then rest else if (x == c.x) && (y == c.y) && (z == c.z) then some tile' else rest

new_map-no_leaf : (x y : ℕ) → get_leaf x y no_children ≡ none
unfolding get_leaf
new_map-no_leaf x y = ground arith

new_map-IsMap : IsMap new_map
new_map-IsMap = record {
  deep = (tt, tt, tt, tt);
  rooted = λ e. cc;
  used = λ x y i found. absurd (cc (new_map-no_leaf x y, found));
  own = λ x y x' y' i found found'. absurd (cc (new_map-no_leaf x y, found));
}

pub set_tiles-IsMap : (merge : ℕ → ℕ → ℕ) (cs : List Call) → IsMap (set_tiles merge cs)
set_tiles-IsMap merge [] = new_map-IsMap
set_tiles-IsMap merge (c ∷ cs) =
    set_tile-IsMap merge c.x c.y c.z c.tile (set_tiles merge cs) (set_tiles-IsMap merge cs)

get_tile-new_map : (x y z : ℕ) → get_tile x y z new_map ≡ none
unfolding get_tile
get_tile-new_map x y z = rw (new_map-no_leaf x y) (ground arith)

set_tile-outside :
    (merge : ℕ → ℕ → ℕ) (x y z tile : ℕ) (m : Map)
    → leb 16 z ≡ true
    → set_tile merge x y z tile m ≡ m
unfolding set_tile
set_tile-outside merge x y z tile m e = rw e refl

-- After any calls of `setTile` on a new map, with coordinates of 16 bits, `getTile` finds at every
-- position of 16 bits what the record of the calls says.
pub get_tile-set_tiles :
    (merge : ℕ → ℕ → ℕ) (cs : List Call) (x y z : ℕ)
    → All Fits cs
    → x < 65536
    → y < 65536
    → get_tile x y z (set_tiles merge cs) ≡ recorded merge cs x y z
get_tile-set_tiles merge [] x y z fits fx fy = get_tile-new_map x y z
get_tile-set_tiles merge (c ∷ cs) x y z (fits, rest) fx fy =
    let before = get_tile-set_tiles merge cs x y z rest fx fy in
    elim (Bool-cases (leb 16 c.z)) [
      | inl outside ↦
          ap (get_tile x y z)
            (set_tile-outside merge c.x c.y c.z c.tile (set_tiles merge cs) outside)
          ∙ before
          ∙ rw outside refl
      | inr within ↦
          let there = get_tile-set_tiles merge cs c.x c.y c.z rest fits.0 fits.1 in
          get_tile-set_tile merge c.x c.y c.z c.tile (set_tiles merge cs) x y z
            (set_tiles-IsMap merge cs) fits.0 fits.1 fx fy (ground (arith, within))
          ∙ rw (within, before, there) refl
    ]
