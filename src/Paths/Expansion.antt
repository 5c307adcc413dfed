-- ===== src/Paths/Expansion.antt =====
-- The loop of src/map.cpp's path search over the neighbours of a node, and the node of least cost.
use zenonia.Base.{
  ℕ, ◌<◌, ◌≢◌, subst, Bool, true, false, Option, some, List, [], ◌∷◌, if◌then◌else◌, arith, All,
  Bool-cases, Option-cases, inl, inr,
}
use zenonia.Position.{Direction, north, unmoved, get_next_position}
use zenonia.Paths.{
  Node, Nodes, Query, FindPathParams, visit, expand, is_left_out, neighbors_of, dir_neighbors,
  row_for, all_neighbors,
}
use zenonia.Paths.Tree.{at, Inside, Tree}
use zenonia.Paths.Growth.{MayTree, visit-Tree, next}

-- No row has the constant that is no step.
abbrev pub AreMoves : List Direction → Type 0
AreMoves ds = All (λ d. d ≢ unmoved) ds

dir_neighbors-AreMoves : (diagonal : Bool) (d : Direction) → AreMoves (dir_neighbors diagonal d)
unfolding dir_neighbors
dir_neighbors-AreMoves true north = ground arith
dir_neighbors-AreMoves true _ = ground arith
dir_neighbors-AreMoves false north = ground arith
dir_neighbors-AreMoves false _ = ground arith

all_neighbors-AreMoves : AreMoves all_neighbors
all_neighbors-AreMoves = ground arith

pub neighbors_of-AreMoves :
    (fpp : FindPathParams) (s : Nodes) (n : Node) → AreMoves (neighbors_of fpp s n)
unfolding neighbors_of
neighbors_of-AreMoves fpp s n = elim (Option-cases n.parent) [
  | inl e ↦ rw (e, neighbors_of) all_neighbors-AreMoves
  | inr (p, e) ↦
      rw (e, neighbors_of)
        (dir_neighbors-AreMoves fpp.allow_diagonal (row_for fpp.allow_diagonal n (s.nodes p)))
]

-- What one neighbour makes of the nodes.
abbrev pub next_nodes : Query → ℕ → Direction → Nodes → Option Nodes
next_nodes q n d s =
    let p = get_next_position d (at q (s.nodes n)) in
    if is_left_out q.fpp q.target q.start p then some s else visit q.ground n p s

pub next_nodes-MayTree :
    (q : Query)
    → Inside q
    → (n : ℕ) (d : Direction) → d ≢ unmoved
    → (s : Nodes) → Tree q s
    → n < s.cur_node
    → MayTree q n (next_nodes q n d s)
next_nodes-MayTree q inside n d moves s t lt =
    elim (Bool-cases (is_left_out q.fpp q.target q.start (next q inside s t n lt d moves))) [
      | inl e ↦ rw e (t, lt)
      | inr e ↦ rw e (visit-Tree q inside s t n lt d moves)
    ]

pub expand-Tree :
    (q : Query)
    → Inside q
    → (n : ℕ) (ds : List Direction) → AreMoves ds
    → (s : Nodes) → Tree q s
    → n < s.cur_node
    → Tree q (expand q n ds s).0 × (n < (expand q n ds s).0.cur_node)
unfolding expand
expand-Tree q inside n [] moves s t lt = (t, lt)
expand-Tree q inside n (d ∷ ds) moves s t lt =
    let may = next_nodes-MayTree q inside n d moves.0 s t lt in
    elim (Option-cases (next_nodes q n d s)) [
      | inl e ↦ rw (e, expand) (t, lt)
      | inr (s', e) ↦
          let grown : MayTree q n (some s') = subst (λ o. MayTree q n o) e may in
          rw (e, expand) (expand-Tree q inside n ds moves.1 s' grown.0 grown.1)
    ]
