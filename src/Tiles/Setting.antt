-- ===== src/Tiles/Setting.antt =====
-- `setTile` and `getTile` of src/map.cpp: the tree with its leaves is a map from positions to tiles.
use zenonia.Base.{
  ℕ, ◌%◌, ◌<◌, ◌≡◌, ◌≢◌, refl, sym, ap, ◌∙◌, Bool, true, ◌&&◌, Option, none, some, update, ◌==◌,
  if◌then◌else◌, arith, Bool-cases, inl, inr,
}
use zenonia.Tiles.{
  Tree, absent, Leaf, Map, get_leaf, create_leaf, new_leaf, put_tile, tile_at, link, link_to,
  connect, placed, later, earlier,
}
use zenonia.Tiles.Growth.{IsDeep, same_bits, or_else}

abbrev pub same_square : ℕ → ℕ → ℕ → ℕ → Bool
same_square x y x' y' = same_bits 13 x x' && same_bits 13 y y'

-- The tree is complete, and its leaves have addresses of their own, all used before.
pub record IsMap (m : Map) : Type 0 where
  pub deep : IsDeep 13 m.root
  pub rooted : m.root ≢ absent
  pub used : (x y i : ℕ) → get_leaf x y m.root ≡ some i → i < m.next
  pub own :
      (x y x' y' i : ℕ)
      → get_leaf x y m.root ≡ some i
      → get_leaf x' y' m.root ≡ some i
      → same_square x y x' y' ≡ true

pub tile_at-put_tile :
    (merge : ℕ → ℕ → ℕ) (x y z tile : ℕ) (l : Leaf) (x' y' z' : ℕ)
    → tile_at (put_tile merge x y z tile l) x' y' z' ≡ (
        if (z' == z) && (x' % 8 == x % 8) && (y' % 8 == y % 8)
        then some (elim (tile_at l x y z) [ none ↦ tile | some old ↦ merge old tile ])
        else tile_at l x' y' z')
unfolding tile_at put_tile
tile_at-put_tile merge x y z tile l x' y' z' = ground arith

-- The links do not touch the tiles.
tile_at-link :
    (o : Option ℕ) (f : Leaf → Leaf) (leaves : ℕ → Leaf) (i x y z : ℕ)
    → ((l : Leaf) → tile_at (f l) x y z ≡ tile_at l x y z)
    → tile_at (link o f leaves i) x y z ≡ tile_at (leaves i) x y z
tile_at-link none f leaves i x y z keep = refl
tile_at-link (some j) f leaves i x y z keep = elim (Bool-cases (i == j)) [
  | inl e ↦
      rw (e, update)
        (keep (leaves j) ∙ ap (λ k. tile_at (leaves k) x y z) (sym (ground (arith, e))))
  | inr e ↦ rw (e, update) refl
]

tile_at-link_to :
    (id : ℕ) (o : Option ℕ) (f : ℕ → Leaf → Leaf) (leaves : ℕ → Leaf) (i x y z : ℕ)
    → ((j : ℕ) (l : Leaf) → tile_at (f j l) x y z ≡ tile_at l x y z)
    → tile_at (link_to id o f leaves i) x y z ≡ tile_at (leaves i) x y z
tile_at-link_to id none f leaves i x y z keep = refl
tile_at-link_to id (some j) f leaves i x y z keep = elim (Bool-cases (i == id)) [
  | inl e ↦
      rw (e, update)
        (keep j (leaves id) ∙ ap (λ k. tile_at (leaves k) x y z) (sym (ground (arith, e))))
  | inr e ↦ rw (e, update) refl
]

tile_at-connect :
    (id x y : ℕ) (root : Tree) (leaves : ℕ → Leaf) (i x' y' z : ℕ)
    → tile_at (connect id x y root leaves i) x' y' z ≡ tile_at (leaves i) x' y' z
unfolding connect tile_at
tile_at-connect id x y root leaves i x' y' z =
    let l1 = link (get_leaf x (earlier y) root) (λ l. record l { leaf_s = some id }) leaves in
    let l2 = link (get_leaf (earlier x) y root) (λ l. record l { leaf_e = some id }) l1 in
    let l3 = link_to id (get_leaf x (later y) root) (λ j l. record l { leaf_s = some j }) l2 in
    tile_at-link_to id (get_leaf (later x) y root) (λ j l. record l { leaf_e = some j }) l3 i x' y'
      z (λ j l. refl)
    ∙ tile_at-link_to id (get_leaf x (later y) root) (λ j l. record l { leaf_s = some j }) l2 i x'
        y' z (λ j l. refl)
    ∙ tile_at-link (get_leaf (earlier x) y root) (λ l. record l { leaf_e = some id }) l1 i x' y' z
        (λ l. refl)
    ∙ tile_at-link (get_leaf x (earlier y) root) (λ l. record l { leaf_s = some id }) leaves i x' y'
        z (λ l. refl)

-- The tile of a leaf that may be missing.
abbrev pub tile_of : (ℕ → Leaf) → Option ℕ → ℕ → ℕ → ℕ → Option ℕ
tile_of leaves none x y z = none
tile_of leaves (some i) x y z = tile_at (leaves i) x y z

new_leaf_empty : (x y z : ℕ) → tile_at new_leaf x y z ≡ none
unfolding tile_at
new_leaf_empty x y z = refl

module _ (m : Map) (x y : ℕ) where
  pub root-placed : (o : Option ℕ) → (placed x y m o).1.root ≡ create_leaf 15 m.next x y m.root
  root-placed none = refl
  root-placed (some i) = refl

  pub id-placed : (o : Option ℕ) → (placed x y m o).0 ≡ or_else o m.next
  id-placed none = refl
  id-placed (some i) = refl

  pub self-placed :
      (o : Option ℕ) (x' y' z : ℕ)
      → tile_at ((placed x y m o).1.leaves (placed x y m o).0) x' y' z ≡ tile_of m.leaves o x' y' z
  self-placed (some i) x' y' z = refl
  self-placed none x' y' z =
      tile_at-connect m.next x y (create_leaf 15 m.next x y m.root)
        (update m.next new_leaf m.leaves) m.next x' y' z
      ∙ ap (λ l. tile_at l x' y' z) (ground arith)
      ∙ new_leaf_empty x' y' z

  pub other-placed :
      (o : Option ℕ) (j x' y' z : ℕ)
      → j < m.next
      → tile_at ((placed x y m o).1.leaves j) x' y' z ≡ tile_at (m.leaves j) x' y' z
  other-placed (some i) j x' y' z lt = refl
  other-placed none j x' y' z lt =
      tile_at-connect m.next x y (create_leaf 15 m.next x y m.root)
        (update m.next new_leaf m.leaves) j x' y' z
      ∙ ap (λ l. tile_at l x' y' z) (ground (arith, lt))
