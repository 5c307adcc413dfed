-- ===== src/Paths/Ending.antt =====
-- The end of the search of `Map::getPathMatching` of src/map.cpp, and what it returns.
use zenonia.Base.{
  ℕ, zero, suc, ◌+◌, ◌<◌, ◌≡◌, true, ◌&&◌, Option, none, some, leb, ◌==◌, arith, Bool-cases,
  Option-cases, inl, inr,
}
use zenonia.Position.{Position}
use zenonia.Paths.{
  Nodes, Query, Progress, Turn, again, done, failed, close_node, expand, neighbors_of,
  get_best_node, max_nodes, path_condition, spread, turn, search,
}
use zenonia.Paths.Tree.{at, Inside, Tree, close_node-Tree}
use zenonia.Paths.Expansion.{expand-Tree, neighbors_of-AreMoves}
use zenonia.Paths.Frontier.{Working}
use zenonia.Paths.Rounds.{Ordered, get_best_node-Working, close_node-Ordered, expand-Working}
use zenonia.Paths.Places.{Keeps, expand-Keeps}

-- The condition has held at a position.
abbrev pub Matches : Query → Position → Type 0
Matches q p = (b : ℕ) × ((path_condition q.ground q.fpp q.target q.start p b).0 ≡ true)

abbrev pub IsMatch : Query → Nodes → Option ℕ → Type 0
IsMatch q s none = Unit
IsMatch q s (some i) = (i < s.cur_node) × Matches q (at q (s.nodes i))

pub record Going (q : Query) (p : Progress) : Type 0 where
  pub tree : Tree q p.state
  pub ordered : Ordered p.state
  pub matched : IsMatch q p.state p.found

-- One round goes on with one more node closed, or ends with a match.
abbrev Turned : Query → ℕ → Turn → Type 0
Turned q closed (again p) = Going q p × (p.state.closed_nodes ≡ closed + 1)
Turned q closed (done p) = Tree q p.state × IsMatch q p.state p.found
Turned q closed failed = Unit

keep-IsMatch :
    (q : Query) (s s' : Nodes) (o : Option ℕ) → Keeps s s' → IsMatch q s o → IsMatch q s' o
keep-IsMatch q s s' none k h = tt
keep-IsMatch q s s' (some i) k (lt, m) = (omega (arith, lt, k.0), rw ((k.1 i lt).0, (k.1 i lt).1) m)

unmoved-IsMatch :
    (q : Query) (s : Nodes) (n : ℕ) (o : Option ℕ) → IsMatch q s o → IsMatch q (close_node n s) o
unfolding close_node
unmoved-IsMatch q s n none h = tt
unmoved-IsMatch q s n (some i) h = h

module _ (q : Query) (inside : Inside q) where
  closes :
      (n : ℕ) (p : Progress) (s' : Nodes)
      → Tree q s'
      → Working n s'
      → s'.closed_nodes ≡ p.state.closed_nodes
      → IsMatch q s' p.found
      → Turned q p.state.closed_nodes (again (record p { state = close_node n s' }))
  unfolding close_node
  closes n p s' t w e m = (
    record {
      tree = close_node-Tree q n s' t;
      ordered = close_node-Ordered n s' w;
      matched = unmoved-IsMatch q s' n p.found m;
    },
    omega (arith, e),
  )

  gives_up :
      (c : ℕ) (o : Option ℕ) (x : Turn)
      → Turned q c x
      → Turned q c (elim o [ none ↦ failed | some i ↦ x ])
  gives_up c none x h = tt
  gives_up c (some i) x h = h

  ends :
      (c : ℕ) (o : Option ℕ) (p : Progress)
      → Turned q c (done p)
      → Turned q c (elim o [ none ↦ failed | some i ↦ done p ])
  ends c none p h = tt
  ends c (some i) p h = h

  spread-Turned :
      (n : ℕ) (p : Progress)
      → Tree q p.state
      → Working n p.state
      → IsMatch q p.state p.found
      → Turned q p.state.closed_nodes (spread q n p)
  unfolding spread
  spread-Turned n p t w m =
      let s = p.state in
      let ds = neighbors_of q.fpp s (s.nodes n) in
      let moves = neighbors_of-AreMoves q.fpp s (s.nodes n) in
      let s' = (expand q n ds s).0 in
      let tree = expand-Tree q inside n ds moves s t w.in_use in
      let work = expand-Working q inside n ds moves s t w in
      let matched = keep-IsMatch q s s' p.found (expand-Keeps q n ds s) m in
      elim (Bool-cases (expand q n ds s).1) [
        | inl e ↦ rw e (closes n p s' tree.0 work.0 work.1 matched)
        | inr e ↦ rw e (
            gives_up p.state.closed_nodes p.found (again (record p { state = close_node n s' }))
              (closes n p s' tree.0 work.0 work.1 matched))
      ]

  -- The condition holds at the node.
  hit :
      (n : ℕ) (s : Nodes) (b : ℕ)
      → Working n s
      → (path_condition q.ground q.fpp q.target q.start (at q (s.nodes n)) b).0 ≡ true
      → IsMatch q s (some n)
  hit n s b w e = (w.in_use, (b, e))

  turn-Turned : (p : Progress) → Going q p → Turned q p.state.closed_nodes (turn q p)
  unfolding turn
  turn-Turned p g =
      let s = p.state in
      elim (Option-cases (get_best_node s)) [
        | inl e ↦ rw (e, turn) (ends p.state.closed_nodes p.found p (g.tree, g.matched))
        | inr (n, e) ↦
            let w = get_best_node-Working s g.ordered n e in
            let c =
              path_condition q.ground q.fpp q.target q.start (at q (s.nodes n)) p.best_match in
            rw (e, turn)
              (elim (Bool-cases c.0) [
                | inl matches ↦ rw matches (elim (Bool-cases (c.1 == 0)) [
                  | inl best ↦ rw best (g.tree, hit n s p.best_match w matches)
                  | inr worse ↦ rw worse (
                      spread-Turned n (record p { best_match = c.1; found = some n }) g.tree w
                        (hit n s p.best_match w matches))
                ])
                | inr none_here ↦
                    rw none_here
                      (spread-Turned n (record p { best_match = c.1 }) g.tree w g.matched)
              ])
      ]

  -- What the search ends with.
  abbrev pub Ended : Option (Option Progress) → Type 0
  Ended none = ⊥
  Ended (some none) = Unit
  Ended (some (some p)) = Tree q p.state × IsMatch q p.state p.found

  continues :
      (fuel c : ℕ) (x : Turn)
      → Turned q c x
      → max_nodes < suc fuel + c
      → ((p : Progress)
          → Going q p
          → max_nodes < fuel + p.state.closed_nodes
          → Ended (search fuel q p))
      → Ended
          (elim x [ failed ↦ some none | done p' ↦ some (some p') | again p' ↦ search fuel q p' ])
  continues fuel c (again p) h enough more = more p h.0 (omega (arith, h.1, enough))
  continues fuel c (done p) h enough more = h
  continues fuel c failed h enough more = tt

  pub search-Ended :
      (fuel : ℕ) (p : Progress)
      → Going q p
      → max_nodes < fuel + p.state.closed_nodes
      → Ended (search fuel q p)
  unfolding search
  search-Ended zero p g enough = absurd (omega (arith, enough, g.ordered.counted, g.tree.room))
  search-Ended (suc fuel) p g enough =
      elim (Bool-cases ((q.fpp.max_search_dist == 0) && leb 100 p.state.closed_nodes)) [
        | inl e ↦ rw e (g.tree, g.matched)
        | inr e ↦ rw e (
            continues fuel p.state.closed_nodes (turn q p) (turn-Turned p g) enough
              (search-Ended fuel))
      ]
