-- ===== src/Tiles/Placing.antt =====
-- The leaf that `setTile` of src/map.cpp writes to, and the leaves of all other positions.
use zenonia.Base.{
  ℕ, zero, suc, ◌%◌, ◌<◌, ◌≤◌, ◌≡◌, ◌≢◌, refl, sym, ap, ◌∙◌, subst, true, false, ◌&&◌, Option, none,
  some, update, ◌==◌, if◌then◌else◌, arith, Bool-cases, inl, inr,
}
use zenonia.Tiles.{
  Tree, absent, branch, leaf, Leaf, Map, double, get_leaf, create_leaf, put_tile, tile_at, placed,
  write_leaf,
}
use zenonia.Tiles.Growth.{same_bits, or_else, made, create_leaf-IsDeep, get_leaf-square}
use zenonia.Tiles.Setting.{
  same_square, IsMap, tile_at-put_tile, tile_of, root-placed, id-placed, self-placed, other-placed,
}

same_bits_join :
    (n a b c : ℕ) → same_bits n a b ≡ true → same_bits n a c ≡ true → same_bits n b c ≡ true
unfolding same_bits
same_bits_join zero a b c h k = refl
same_bits_join (suc n) a b c h k =
    ground (arith, h, k, same_bits_join n (double a) (double b) (double c))

update-same : (k : ℕ) (v : Leaf) (f : ℕ → Leaf) → update k v f k ≡ v
update-same k v f = ground arith

update-other : (k : ℕ) (v : Leaf) (f : ℕ → Leaf) (j : ℕ) → j ≢ k → update k v f j ≡ f j
update-other k v f j ne = ground (arith, ne)

same_square_join :
    (x y a b a' b' : ℕ)
    → same_square x y a b ≡ true
    → same_square x y a' b' ≡ true
    → same_square a b a' b' ≡ true
same_square_join x y a b a' b' h k =
    let across = same_bits_join 13 x a a' in
    let down = same_bits_join 13 y b b' in ground (arith, h, k)

create_leaf-absent : (n id x y : ℕ) (t : Tree) → t ≢ absent → create_leaf n id x y t ≢ absent
unfolding create_leaf
create_leaf-absent zero id x y t ne = ne
create_leaf-absent (suc n) id x y absent ne = ne
create_leaf-absent (suc n) id x y (leaf i) ne = ne
create_leaf-absent (suc n) id x y (branch a b c d) ne = λ e. ground (arith, e)

module _ (m : Map) (h : IsMap m) (x y : ℕ) where
  abbrev pub place : ℕ × Map
  place = placed x y m (get_leaf x y m.root)

  get_leaf-place :
      (x' y' : ℕ)
      → get_leaf x' y' place.1.root
        ≡ (if same_square x y x' y' then some place.0 else get_leaf x' y' m.root)
  get_leaf-place x' y' =
      rw (root-placed m x y (get_leaf x y m.root), id-placed m x y (get_leaf x y m.root))
        (made m.next 13 m.root h.deep h.rooted x y x' y')

  on-place : (x' y' : ℕ) → same_square x y x' y' ≡ true → get_leaf x' y' place.1.root ≡ some place.0
  on-place x' y' same = cc (get_leaf-place x' y', same)

  off-place_leaf :
      (x' y' : ℕ)
      → same_square x y x' y' ≡ false
      → get_leaf x' y' place.1.root ≡ get_leaf x' y' m.root
  off-place_leaf x' y' other = cc (get_leaf-place x' y', other)

  -- The leaf of another square has another address.
  elsewhere :
      (o : Option ℕ)
      → get_leaf x y m.root ≡ o
      → (x' y' : ℕ) → same_square x y x' y' ≡ false
      → get_leaf x' y' m.root ≡ some (or_else o m.next)
      → ⊥
  elsewhere none e x' y' other found = absurd (omega (arith, h.used x' y' m.next found))
  elsewhere (some i) e x' y' other found = let same = h.own x y x' y' i e found in cc

  next-place :
      (o : Option ℕ)
      → get_leaf x y m.root ≡ o
      → (m.next ≤ (placed x y m o).1.next) × (or_else o m.next < (placed x y m o).1.next)
  next-place none e = (omega arith, omega arith)
  next-place (some i) e = (omega arith, h.used x y i e)

  at-place :
      (a b i : ℕ) → get_leaf a b place.1.root ≡ some i → same_square x y a b ≡ true → place.0 ≡ i
  at-place a b i found same = cc (get_leaf-place a b, found, same)

  off-place :
      (a b i : ℕ)
      → get_leaf a b place.1.root ≡ some i
      → same_square x y a b ≡ false
      → get_leaf a b m.root ≡ some i
  off-place a b i found other = sym (off-place_leaf a b other) ∙ found

  never_both :
      (a b a' b' i : ℕ)
      → get_leaf a b place.1.root ≡ some i
      → same_square x y a b ≡ true
      → get_leaf a' b' place.1.root ≡ some i
      → same_square x y a' b' ≡ false
      → ⊥
  never_both a b a' b' i found same found' other =
      elsewhere (get_leaf x y m.root) refl a' b' other (
        off-place a' b' i found' other
        ∙ ap some (sym (at-place a b i found same) ∙ id-placed m x y (get_leaf x y m.root)))

  pub place-IsMap : IsMap place.1
  place-IsMap = record {
    deep =
        rw (root-placed m x y (get_leaf x y m.root))
          (create_leaf-IsDeep m.next 13 x y m.root h.deep);
    rooted =
        rw (root-placed m x y (get_leaf x y m.root))
          (create_leaf-absent 15 m.next x y m.root h.rooted);
    used = λ a b i found. elim (Bool-cases (same_square x y a b)) [
      | inl same ↦
          subst (λ j. j < place.1.next)
            (sym (id-placed m x y (get_leaf x y m.root)) ∙ at-place a b i found same)
            (next-place (get_leaf x y m.root) refl).1
      | inr other ↦
          omega (
            arith,
            h.used a b i (off-place a b i found other),
            next-place (get_leaf x y m.root) refl,
          )
    ];
    own = λ a b a' b' i found found'. elim (Bool-cases (same_square x y a b)) [
      | inl same ↦ elim (Bool-cases (same_square x y a' b')) [
        | inl same' ↦ same_square_join x y a b a' b' same same'
        | inr other' ↦ absurd (never_both a b a' b' i found same found' other')
      ]
      | inr other ↦ elim (Bool-cases (same_square x y a' b')) [
        | inl same' ↦ absurd (never_both a' b' a b i found' same' found other)
        | inr other' ↦
            h.own a b a' b' i (off-place a b i found other) (off-place a' b' i found' other')
      ]
    ];
  }

  -- What the leaves of a position hold after a write at `x` and `y`.
  module _ (merge : ℕ → ℕ → ℕ) (z tile : ℕ) where
    abbrev pub stored : Map
    stored = write_leaf (put_tile merge x y z tile) place

    pub stored-same :
        (x' y' z' : ℕ)
        → same_square x y x' y' ≡ true
        → tile_of stored.leaves (get_leaf x' y' stored.root) x' y' z' ≡ (
            if (z' == z) && (x' % 8 == x % 8) && (y' % 8 == y % 8)
            then some (elim (tile_of m.leaves (get_leaf x y m.root) x y z) [
              | none ↦ tile
              | some old ↦ merge old tile
            ])
            else tile_of m.leaves (get_leaf x' y' m.root) x' y' z')
    stored-same x' y' z' same =
        ap (λ o. tile_of stored.leaves o x' y' z') (on-place x' y' same)
        ∙ ap (λ l. tile_at l x' y' z')
            (update-same place.0 (put_tile merge x y z tile (place.1.leaves place.0))
              place.1.leaves)
        ∙ tile_at-put_tile merge x y z tile (place.1.leaves place.0) x' y' z'
        ∙ rw
            (
              self-placed m x y (get_leaf x y m.root) x y z,
              self-placed m x y (get_leaf x y m.root) x' y' z',
              get_leaf-square 13 x y x' y' m.root h.deep same,
            )
            refl

    apart :
        (x' y' z' : ℕ)
        → same_square x y x' y' ≡ false
        → (o : Option ℕ) → get_leaf x' y' m.root ≡ o
        → tile_of stored.leaves o x' y' z' ≡ tile_of m.leaves o x' y' z'
    apart x' y' z' other none e = refl
    apart x' y' z' other (some j) e =
        ap (λ l. tile_at l x' y' z')
          (update-other place.0 (put_tile merge x y z tile (place.1.leaves place.0)) place.1.leaves
            j
            (λ same.
              elsewhere (get_leaf x y m.root) refl x' y' other
                (e ∙ ap some (same ∙ id-placed m x y (get_leaf x y m.root)))))
        ∙ other-placed m x y (get_leaf x y m.root) j x' y' z' (h.used x' y' j e)

    pub stored-other :
        (x' y' z' : ℕ)
        → same_square x y x' y' ≡ false
        → tile_of stored.leaves (get_leaf x' y' stored.root) x' y' z'
          ≡ tile_of m.leaves (get_leaf x' y' m.root) x' y' z'
    stored-other x' y' z' other =
        ap (λ o. tile_of stored.leaves o x' y' z') (off-place_leaf x' y' other)
        ∙ apart x' y' z' other (get_leaf x' y' m.root) refl
