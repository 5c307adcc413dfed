-- ===== src/Tiles.antt =====
-- The tiles of `Map` in src/map.cpp and src/map.h: a tree over the bits of the coordinates down to leaves
-- of 8 by 8 tiles, each linked to the leaves south and east of it. A pointer is a number; a tile is one
-- too, and what two tiles are made into is an argument.
pub mod History
pub mod Lookup
pub mod Placing
pub mod Setting
pub mod Squares
pub mod Growth
use zenonia.Base.{
  ℕ, zero, suc, ◌+◌, ◌-◌, ◌*◌, ◌%◌, ◌^◌, Bool, true, false, ◌&&◌, Option, none, some, update, leb,
  ◌==◌, if◌then◌else◌,
}

-- `QTreeNode`: no node, a node with its children, a leaf at its address.
pub data Tree : Type 0 where
  absent : Tree
  branch : Tree → Tree → Tree → Tree → Tree
  leaf : ℕ → Tree

-- `Floor`: tiles by their offsets.
abbrev pub Floor : Type 0
Floor = ℕ → ℕ → Option ℕ

-- `QTreeLeafNode`
pub record Leaf : Type 0 where
  pub leaf_s : Option ℕ
  pub leaf_e : Option ℕ
  pub array : ℕ → Option Floor

-- `Map`, with all leaves by address; `next` is the address that `new` gives.
pub record Map : Type 0 where
  pub root : Tree
  pub leaves : ℕ → Leaf
  pub next : ℕ

-- `x & 0x8000`
unfoldable pub top_bit : ℕ → Bool
top_bit x = leb 32768 (x % 65536)

-- `x << 1` of 32 bits
abbrev pub double : ℕ → ℕ
double x = (x * 2) % 2 ^ 32

unfoldable pub get_leaf : ℕ → ℕ → Tree → Option ℕ
unfolding top_bit
get_leaf x y absent = none
get_leaf x y (leaf i) = some i
get_leaf x y (branch a b c d) = elim (top_bit y) [
  | false ↦ elim (top_bit x) [
    | false ↦ get_leaf (double x) (double y) a
    | true ↦ get_leaf (double x) (double y) b
  ]
  | true ↦ elim (top_bit x) [
    | false ↦ get_leaf (double x) (double y) c
    | true ↦ get_leaf (double x) (double y) d
  ]
]

abbrev pub no_children : Tree
no_children = branch absent absent absent absent

-- A child that is missing is made: a leaf at the level `FLOOR_BITS`, else a node.
unfoldable pub plant : ℕ → ℕ → Tree → Tree
plant level id absent = if level == 3 then leaf id else no_children
plant level id (branch a b c d) = branch a b c d
plant level id (leaf i) = leaf i

-- `createLeaf` on a node, with the address of a leaf that it makes.
unfoldable pub create_leaf : ℕ → ℕ → ℕ → ℕ → Tree → Tree
unfolding plant top_bit
create_leaf zero id x y t = t
create_leaf (suc l) id x y absent = absent
create_leaf (suc l) id x y (leaf i) = leaf i
create_leaf (suc l) id x y (branch a b c d) =
    let grow : Tree → Tree = λ t. create_leaf l id (double x) (double y) (plant (suc l) id t) in
    elim (top_bit y) [
      | false ↦ elim (top_bit x) [ false ↦ branch (grow a) b c d | true ↦ branch a (grow b) c d ]
      | true ↦ elim (top_bit x) [ false ↦ branch a b (grow c) d | true ↦ branch a b c (grow d) ]
    ]

abbrev pub new_leaf : Leaf
new_leaf = record { leaf_s = none; leaf_e = none; array = λ z. none }

-- `createFloor` and the tile at an offset, with what becomes of a tile that is there.
unfoldable pub put_tile : (ℕ → ℕ → ℕ) → ℕ → ℕ → ℕ → ℕ → Leaf → Leaf
put_tile merge x y z tile l =
    let floor : Floor = elim (l.array z) [ none ↦ λ ox oy. none | some floor ↦ floor ] in
    let tile' : ℕ = elim (floor (x % 8) (y % 8)) [ none ↦ tile | some old ↦ merge old tile ] in
    record l {
      array =
          update z (some (update (x % 8) (update (y % 8) (some tile') (floor (x % 8))) floor))
            l.array;
    }

-- `x + FLOOR_SIZE` and `x - FLOOR_SIZE` of 32 bits
abbrev pub later : ℕ → ℕ
later x = (x + 8) % 2 ^ 32

abbrev pub earlier : ℕ → ℕ
earlier x = (x + (2 ^ 32 - 8)) % 2 ^ 32

-- A leaf that may be missing gets a link.
abbrev pub link : Option ℕ → (Leaf → Leaf) → (ℕ → Leaf) → ℕ → Leaf
link none f leaves = leaves
link (some i) f leaves = update i (f (leaves i)) leaves

-- A leaf gets a link to one that may be missing.
abbrev pub link_to : ℕ → Option ℕ → (ℕ → Leaf → Leaf) → (ℕ → Leaf) → ℕ → Leaf
link_to id none f leaves = leaves
link_to id (some i) f leaves = update id (f i (leaves id)) leaves

-- The links of a leaf that is new, from the north and the west and to the south and the east.
unfoldable pub connect : ℕ → ℕ → ℕ → Tree → (ℕ → Leaf) → ℕ → Leaf
connect id x y root leaves =
    link_to id (get_leaf (later x) y root) (λ i l. record l { leaf_e = some i })
      (link_to id (get_leaf x (later y) root) (λ i l. record l { leaf_s = some i })
        (link (get_leaf (earlier x) y root) (λ l. record l { leaf_e = some id })
          (link (get_leaf x (earlier y) root) (λ l. record l { leaf_s = some id }) leaves)))

-- The leaf of a position, which is made if there is none.
abbrev pub placed : ℕ → ℕ → Map → Option ℕ → ℕ × Map
placed x y m (some i) = (i, record m { root = create_leaf 15 m.next x y m.root })
placed x y m none =
    let root = create_leaf 15 m.next x y m.root in
    (
      m.next,
      record {
        root = root;
        leaves = connect m.next x y root (update m.next new_leaf m.leaves);
        next = m.next + 1;
      },
    )

abbrev pub write_leaf : (Leaf → Leaf) → ℕ × Map → Map
write_leaf f (i, m) = record m { leaves = update i (f (m.leaves i)) m.leaves }

unfoldable pub set_tile : (ℕ → ℕ → ℕ) → ℕ → ℕ → ℕ → ℕ → Map → Map
unfolding get_leaf create_leaf connect put_tile
set_tile merge x y z tile m =
    if leb 16 z
    then m
    else write_leaf (put_tile merge x y z tile) (placed x y m (get_leaf x y m.root))

-- The tile of a leaf.
unfoldable pub tile_at : Leaf → ℕ → ℕ → ℕ → Option ℕ
tile_at l x y z = elim (l.array z) [ none ↦ none | some floor ↦ floor (x % 8) (y % 8) ]

unfoldable pub get_tile : ℕ → ℕ → ℕ → Map → Option ℕ
unfolding get_leaf tile_at
get_tile x y z m =
    if leb 16 z
    then none
    else elim (get_leaf x y m.root) [ none ↦ none | some i ↦ tile_at (m.leaves i) x y z ]
