-- ===== src/Paths/Walks.antt =====
-- The steps that src/map.cpp's path search returns.
use zenonia.Base.{
  ℕ, zero, suc, ◌<◌, ◌≡◌, ◌≢◌, sym, ap, subst, true, Option, none, some, List, [], ◌∷◌, arith,
  Option-cases, inl, inr,
}
use zenonia.Position.{Position, Direction, north, unmoved, get_next_position}
use zenonia.Position.Moves.{Inland}
use zenonia.Paths.{Node, Nodes, Query, push_step, trace, can_walk_to}
use zenonia.Paths.Tree.{at, Inside, Tree, Root, LinkedBy, node-Inland}

-- From the first position, each step is a real one onto a tile where the creature can walk, and the
-- last one ends at the second position.
abbrev pub Walks : Query → Position → List Direction → Position → Type 0
Walks q a [] b = a ≡ b
Walks q a (d ∷ ds) b =
    (d ≢ unmoved)
    × (can_walk_to q.ground (get_next_position d a) ≡ true)
    × Walks q (get_next_position d a) ds b

push_step_lem :
    (a b : Node) (d : Direction) (z : ℕ) (dirs : List Direction)
    → d ≢ unmoved
    → Inland (record { x = a.x; y = a.y; z = z })
    → (get_next_position d (record { x = a.x; y = a.y; z = z })).x ≡ b.x
    → (get_next_position d (record { x = a.x; y = a.y; z = z })).y ≡ b.y
    → push_step a b dirs ≡ d ∷ dirs
unfolding push_step get_next_position
push_step_lem a b north z dirs moves i ex ey = ground (arith, i, ex, ey)
push_step_lem a b _ z dirs moves i ex ey = ground (arith, i, ex, ey, moves)

-- What the loop along the parents returns.
abbrev pub Traced : Query → Position → Option (List Direction) → Type 0
Traced q b none = ⊥
Traced q b (some dirs) = Walks q q.start dirs b

module _ (q : Query) (inside : Inside q) (s : Nodes) (t : Tree q s) (b : Position) where
  at-Root : (i : ℕ) → Root q (s.nodes i) → at q (s.nodes i) ≡ q.start
  at-Root i root = ground (arith, root.0, root.1)

  pub trace-Traced :
      (fuel i : ℕ) (dirs : List Direction)
      → i < s.cur_node
      → (s.nodes i).f < fuel
      → Walks q (at q (s.nodes i)) dirs b
      → Traced q b (trace fuel s i dirs)
  unfolding trace
  trace-Traced zero i dirs lt enough h = absurd (omega (arith, enough))
  trace-Traced (suc fuel) i dirs lt enough h = elim (Option-cases (s.nodes i).parent) [
    | inl e ↦
        let root : LinkedBy q s (s.nodes i) none =
          subst (λ o. LinkedBy q s (s.nodes i) o) e (t.linked i lt) in
        rw (e, trace) (subst (λ a. Walks q a dirs b) (at-Root i root) h)
    | inr (p, e) ↦
        let linked : LinkedBy q s (s.nodes i) (some p) =
          subst (λ o. LinkedBy q s (s.nodes i) o) e (t.linked i lt) in
        let (d, moves, arrives) = linked.1.2 in
        let there = λ (a : Position). can_walk_to q.ground a ≡ true in
        rw (e, trace)
          (rw
            (push_step_lem (s.nodes p) (s.nodes i) d q.start.z dirs moves
              (node-Inland q inside s t p linked.0) (ap (λ a. a.x) arrives) (ap (λ a. a.y) arrives))
            (trace-Traced fuel p (d ∷ dirs) linked.0 (omega (arith, enough, linked.1.0)) (
              moves,
              subst there (sym arrives) linked.1.1,
              subst (λ a. Walks q a dirs b) (sym arrives) h,
            )))
  ]
