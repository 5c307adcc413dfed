-- ===== src/Paths/Places.antt =====
-- The nodes of src/map.cpp's path search stay where they are.
use zenonia.Base.{
  ℕ, ◌+◌, ◌≤◌, ◌<◌, ◌≡◌, refl, subst, ◌∙◌, Option, none, some, List, [], ◌∷◌, leb, arith,
  Bool-cases, Option-cases, inl, inr,
}
use zenonia.Position.{Position, Direction, get_next_position}
use zenonia.Paths.{
  Nodes, Ground, Query, improve, open_node, create_open_node, visit, expand, is_left_out,
  can_walk_to, get_node_by_position, get_map_walk_cost, get_tile_walk_cost, max_nodes,
}
use zenonia.Paths.Tree.{at}
use zenonia.Paths.Expansion.{next_nodes}

-- No node is lost or moved.
abbrev pub Keeps : Nodes → Nodes → Type 0
Keeps s s' =
    (s.cur_node ≤ s'.cur_node)
    × ((i : ℕ)
        → i < s.cur_node
        → ((s'.nodes i).x ≡ (s.nodes i).x) × ((s'.nodes i).y ≡ (s.nodes i).y))

abbrev MayKeep : Nodes → Option Nodes → Type 0
MayKeep s none = Unit
MayKeep s (some s') = Keeps s s'

Keeps-refl : (s : Nodes) → Keeps s s
Keeps-refl s = (omega arith, λ i lt. (refl, refl))

Keeps-trans : (s t u : Nodes) → Keeps s t → Keeps t u → Keeps s u
Keeps-trans s t u h k = (
  omega (arith, h.0, k.0),
  λ i lt.
      let first = h.1 i lt in
      let second = k.1 i (omega (arith, lt, h.0)) in (second.0 ∙ first.0, second.1 ∙ first.1),
)

improve-Keeps : (k n f : ℕ) (s : Nodes) → Keeps s (improve k n f s)
unfolding improve open_node
improve-Keeps k n f s = (ground arith, λ i lt. (ground arith, ground arith))

create-MayKeep : (s : Nodes) (parent x y f : ℕ) → MayKeep s (create_open_node s parent x y f)
unfolding create_open_node
create-MayKeep s parent x y f = elim (Bool-cases (leb max_nodes s.cur_node)) [
  | inl full ↦ rw full tt
  | inr room ↦ rw room (omega arith, λ i lt. (ground (arith, lt), ground (arith, lt)))
]

visit-MayKeep : (g : Ground) (n : ℕ) (p : Position) (s : Nodes) → MayKeep s (visit g n p s)
unfolding visit
visit-MayKeep g n p s =
    let f = (s.nodes n).f + get_map_walk_cost (s.nodes n) p + get_tile_walk_cost g p in
    elim (Option-cases (get_node_by_position s p)) [
      | inl e ↦
          rw (e, visit)
            (elim (Bool-cases (can_walk_to g p)) [
              | inl walk ↦ rw walk (create-MayKeep s n p.x p.y f)
              | inr blocked ↦ rw blocked (Keeps-refl s)
            ])
      | inr (k, e) ↦ rw (e, visit) (improve-Keeps k n f s)
    ]

next_nodes-MayKeep :
    (q : Query) (n : ℕ) (d : Direction) (s : Nodes) → MayKeep s (next_nodes q n d s)
next_nodes-MayKeep q n d s =
    let p = get_next_position d (at q (s.nodes n)) in
    elim (Bool-cases (is_left_out q.fpp q.target q.start p)) [
      | inl e ↦ rw e (Keeps-refl s)
      | inr e ↦ rw e (visit-MayKeep q.ground n p s)
    ]

pub expand-Keeps :
    (q : Query) (n : ℕ) (ds : List Direction) (s : Nodes) → Keeps s (expand q n ds s).0
unfolding expand
expand-Keeps q n [] s = Keeps-refl s
expand-Keeps q n (d ∷ ds) s = elim (Option-cases (next_nodes q n d s)) [
  | inl e ↦ rw (e, expand) (Keeps-refl s)
  | inr (s', e) ↦
      let keep : MayKeep s (some s') = subst (λ o. MayKeep s o) e (next_nodes-MayKeep q n d s) in
      rw (e, expand) (Keeps-trans s s' (expand q n ds s').0 keep (expand-Keeps q n ds s'))
]
