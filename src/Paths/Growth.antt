-- ===== src/Paths/Growth.antt =====
-- A neighbour that src/map.cpp's path search visits is linked into the tree.
use zenonia.Base.{
  ℕ, ◌+◌, ◌≤◌, ◌<◌, ◌≡◌, ◌≢◌, refl, sym, subst, true, false, Option, none, some, update, leb, arith,
  Bool-cases, Option-cases, inl, inr,
}
use zenonia.Position.{Position, Direction, north, unmoved, get_next_position}
use zenonia.Position.Moves.{Inland}
use zenonia.Paths.{
  Node, Nodes, Query, key, create_open_node, open_node, can_walk_to, get_node_by_position,
  get_map_walk_cost, get_tile_walk_cost, improve, visit, max_nodes,
}
use zenonia.Paths.Tree.{
  Step, at, Link, LinkedBy, Linked, Listed, Inside, Tree, update_cases, node-Inland, Lower,
  keep-Link, keep-LinkedBy, keep-Listed, open_node-Tree, LinkedBy-walk, key-inj,
}

-- The node `n` is worked on, and `p` is the position one step away.
module _ (q : Query) (s : Nodes) (t : Tree q s) (n : ℕ) (n_lt : n < s.cur_node) (p : Position)
    (step : Step (at q (s.nodes n)) p) where
  module _ (k f : ℕ) (k_lt : k < s.cur_node) (there : at q (s.nodes k) ≡ p)
      (cost : (s.nodes n).f + 10 ≤ f) (less : f < (s.nodes k).f) where
    relinked : Nodes
    relinked = record s { nodes = update k (record (s.nodes k) { f = f; parent = some n }) s.nodes }

    relinked-Lower : (i : ℕ) → i < s.cur_node → Lower (relinked.nodes i) (s.nodes i)
    unfolding relinked
    relinked-Lower i lt =
        update_cases (λ a. Lower a (s.nodes i)) k (record (s.nodes k) { f = f; parent = some n })
          s.nodes i (λ e. rw e (refl, refl, omega (arith, less))) (λ e. (refl, refl, omega arith))

    new-Link : Link q (s.nodes n) (record (s.nodes k) { f = f; parent = some n })
    new-Link = (
      cost,
      LinkedBy-walk q s (s.nodes k) (s.nodes k).parent (omega (arith, less)) (t.linked k k_lt),
      rw there step,
    )

    relinked-Linked : (i : ℕ) → i < s.cur_node → Linked q relinked i
    unfolding relinked
    relinked-Linked i lt =
        update_cases (λ a. LinkedBy q relinked a a.parent) k
          (record (s.nodes k) { f = f; parent = some n }) s.nodes i
          (λ e. (
            n_lt,
            keep-Link q s relinked (omega arith) (record (s.nodes k) { f = f; parent = some n })
                (s.nodes n) (relinked.nodes n) (relinked-Lower n n_lt) new-Link,
          ))
          (λ e.
            keep-LinkedBy q s relinked (omega arith) (s.nodes i) (s.nodes i).parent relinked-Lower
              (t.linked i lt))

    relinked-Tree : Tree q relinked
    unfolding relinked
    relinked-Tree = record {
      linked = relinked-Linked;
      listed = λ x.
          keep-Listed q s relinked (omega arith) (s.node_table x) x relinked-Lower (t.listed x);
      room = t.room;
    }

  module _ (f : ℕ) (cost : (s.nodes n).f + 10 ≤ f) where
    improve-Tree : (k : ℕ) → k < s.cur_node → at q (s.nodes k) ≡ p → Tree q (improve k n f s)
    unfolding improve relinked
    improve-Tree k k_lt there = elim (Bool-cases (leb (s.nodes k).f f)) [
      | inl e ↦ rw (e, improve) t
      | inr e ↦
          rw (e, improve)
            (open_node-Tree q k (relinked k f k_lt there cost (ground (arith, e)))
              (relinked-Tree k f k_lt there cost (ground (arith, e))))
    ]

    module _ (walk : can_walk_to q.ground p ≡ true) (floor : p.z ≡ q.start.z)
        (room : leb max_nodes s.cur_node ≡ false) where
      added : Node
      added = record { parent = some n; x = p.x; y = p.y; f = f }

      grown : Nodes
      grown = record {
        nodes = update s.cur_node added s.nodes;
        open_nodes = update s.cur_node true s.open_nodes;
        node_table = update (key p.x p.y) (some s.cur_node) s.node_table;
        cur_node = s.cur_node + 1;
        closed_nodes = s.closed_nodes;
      }

      grown_same : (i : ℕ) → i < s.cur_node → Lower (grown.nodes i) (s.nodes i)
      unfolding grown
      grown_same i lt =
          update_cases (λ a. Lower a (s.nodes i)) s.cur_node added s.nodes i
            (λ e. absurd (omega (arith, e, lt))) (λ e. (refl, refl, omega arith))

      at-added : at q added ≡ p
      unfolding added
      at-added = ground (arith, floor)

      grown-Linked : (i : ℕ) → i < s.cur_node + 1 → Linked q grown i
      unfolding grown added
      grown-Linked i lt =
          update_cases (λ a. LinkedBy q grown a a.parent) s.cur_node added s.nodes i
            (λ e. (
              omega (arith, n_lt),
              keep-Link q s grown (omega arith) added (s.nodes n) (grown.nodes n)
                  (grown_same n n_lt) (cost, rw at-added walk, rw at-added step),
            ))
            (λ e.
              keep-LinkedBy q s grown (omega arith) (s.nodes i) (s.nodes i).parent grown_same
                (t.linked i (omega (arith, lt, e))))

      grown-Tree : Tree q grown
      unfolding grown added
      grown-Tree = record {
        linked = grown-Linked;
        listed = λ x.
            update_cases (λ o. Listed grown o x) (key p.x p.y) (some s.cur_node) s.node_table x
              (λ e. (
                omega arith,
                update_cases (λ a. key a.x a.y ≡ x) s.cur_node added s.nodes s.cur_node
                    (λ e'. sym e) (λ ne. absurd (ne refl)),
              ))
              (λ e. keep-Listed q s grown (omega arith) (s.node_table x) x grown_same (t.listed x));
        room = ground (arith, room);
      }

next_facts :
    (d : Direction) (a : Position)
    → a.y < 65536
    → ((get_next_position d a).y < 65536) × ((get_next_position d a).z ≡ a.z)
unfolding get_next_position
next_facts north a h = ground arith
next_facts _ a h = ground arith

pub map_cost : (a : Node) (p : Position) → 10 ≤ get_map_walk_cost a p
unfolding get_map_walk_cost
map_cost a p = ground arith

abbrev pub MayTree : Query → ℕ → Option Nodes → Type 0
MayTree q n none = Unit
MayTree q n (some s) = Tree q s × (n < s.cur_node)

improve_cur : (k n f : ℕ) (s : Nodes) → (improve k n f s).cur_node ≡ s.cur_node
unfolding improve open_node
improve_cur k n f s = ground arith

module _ (q : Query) (inside : Inside q) (s : Nodes) (t : Tree q s) (n : ℕ) (n_lt : n < s.cur_node)
    (d : Direction) (moves : d ≢ unmoved) where
  abbrev pub next : Position
  next = get_next_position d (at q (s.nodes n))

  here : Inland (at q (s.nodes n))
  here = node-Inland q inside s t n n_lt

  next_fits : (next.y < 65536) × (next.z ≡ q.start.z)
  next_fits = next_facts d (at q (s.nodes n)) (omega (arith, here))

  known : (k : ℕ) → Listed s (some k) (key next.x next.y) → at q (s.nodes k) ≡ next
  known k (lt, e) =
      let fits = node-Inland q inside s t k lt in
      let same =
        key-inj (s.nodes k).x (s.nodes k).y next.x next.y (omega (arith, fits)) next_fits.0 e in
      ground (arith, same, next_fits)

  cost : ℕ
  cost = (s.nodes n).f + get_map_walk_cost (s.nodes n) next + get_tile_walk_cost q.ground next

  cost_grows : (s.nodes n).f + 10 ≤ cost
  unfolding cost
  cost_grows = omega (arith, map_cost (s.nodes n) next)

  step : Step (at q (s.nodes n)) next
  step = (d, moves, refl)

  visit_new :
      can_walk_to q.ground next ≡ true → MayTree q n (create_open_node s n next.x next.y cost)
  unfolding create_open_node grown added
  visit_new walk = elim (Bool-cases (leb max_nodes s.cur_node)) [
    | inl full ↦ rw full tt
    | inr room ↦ rw room (
      grown-Tree q s t n n_lt next step cost cost_grows walk next_fits.1 room,
      omega (arith, n_lt),
    )
  ]

  pub visit-Tree : MayTree q n (visit q.ground n next s)
  unfolding visit get_node_by_position cost
  visit-Tree = elim (Option-cases (get_node_by_position s next)) [
    | inl e ↦
        rw (e, visit)
          (elim (Bool-cases (can_walk_to q.ground next)) [
            | inl walk ↦ rw walk (visit_new walk)
            | inr blocked ↦ rw blocked (t, n_lt)
          ])
    | inr (k, e) ↦
        let listed : Listed s (some k) (key next.x next.y) =
          subst (λ o. Listed s o (key next.x next.y)) e (t.listed (key next.x next.y)) in
        rw (e, visit)
          (
            improve-Tree q s t n n_lt next step cost cost_grows k listed.0 (known k listed),
            rw (improve_cur k n cost s) n_lt,
          )
  ]
