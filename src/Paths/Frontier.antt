-- ===== src/Paths/Frontier.antt =====
-- The costs in src/map.cpp's path search: closed nodes cost no more than open ones, so that none is
-- opened again.
use zenonia.Base.{
  ℕ, zero, suc, ◌+◌, ◌≤◌, ◌<◌, ◌≡◌, refl, sym, ap, subst, Bool, true, false, Option, none, some,
  update, leb, ◌==◌, if◌then◌else◌, arith, Bool-cases, Option-cases, inl, inr,
}
use native.Mathlib.Numerals.{add-one}
use zenonia.Position.{Position}
use zenonia.Paths.{
  Node, Nodes, Ground, Query, improve, open_node, create_open_node, visit, can_walk_to,
  get_node_by_position, get_map_walk_cost, get_tile_walk_cost, key, max_nodes,
}
use zenonia.Paths.Tree.{Tree, Listed, update_cases}
use zenonia.Paths.Growth.{map_cost}

-- How many of the first nodes are open.
unfoldable pub opens : (ℕ → Bool) → ℕ → ℕ
opens o zero = 0
opens o (suc i) = (if o i then 1 else 0) + opens o i

opens-update_above :
    (o : ℕ → Bool) (k : ℕ) (v : Bool) (n : ℕ) → n ≤ k → opens (update k v o) n ≡ opens o n
unfolding opens
opens-update_above o k v zero h = refl
opens-update_above o k v (suc i) h = ground (arith, opens-update_above o k v i)

pub opens-close :
    (o : ℕ → Bool) (k n : ℕ) → k < n → o k ≡ true → opens (update k false o) n + 1 ≡ opens o n
unfolding opens
opens-close o k zero h e = absurd (omega (arith, h))
opens-close o k (suc i) h e = elim (Bool-cases (i == k)) [
  | inl same ↦
      let eq : i ≡ k = ground (arith, same) in
      rw same (
        rw (subst (λ j. o j ≡ true) (sym eq) e) (omega (arith, opens-update_above o k false i, eq)))
  | inr other ↦ rw other (omega (arith, opens-close o k i (ground (arith, other, h)) e))
]

-- The node `n` has the least cost of the open ones, and the closed ones cost no more.
pub record Working (n : ℕ) (s : Nodes) : Type 0 where
  pub in_use : n < s.cur_node
  pub is_open : s.open_nodes n ≡ true
  pub closed_low : (i : ℕ) → i < s.cur_node → s.open_nodes i ≡ false → (s.nodes i).f ≤ (s.nodes n).f
  pub open_high : (i : ℕ) → i < s.cur_node → s.open_nodes i ≡ true → (s.nodes n).f ≤ (s.nodes i).f
  pub counted : s.closed_nodes + opens s.open_nodes s.cur_node ≡ s.cur_node

abbrev pub MayWork : ℕ → ℕ → Option Nodes → Type 0
MayWork n c none = Unit
MayWork n c (some s) = Working n s × (s.closed_nodes ≡ c)

module _ (n : ℕ) (s : Nodes) (w : Working n s) (f : ℕ) (cost : (s.nodes n).f + 10 ≤ f) where
  module _ (k : ℕ) (k_lt : k < s.cur_node) (less : f < (s.nodes k).f) where
    stays_open : s.open_nodes k ≡ true
    stays_open = elim (Bool-cases (s.open_nodes k)) [
      | inl e ↦ e
      | inr e ↦ absurd (omega (arith, w.closed_low k k_lt e, cost, less))
    ]

    lowered : Node
    lowered = record (s.nodes k) { f = f; parent = some n }

    f_n : (update k lowered s.nodes n).f ≡ (s.nodes n).f
    f_n =
        update_cases (λ a. a.f ≡ (s.nodes n).f) k lowered s.nodes n
          (λ e. absurd (omega (arith, cost, less, ap (λ i. (s.nodes i).f) e))) (λ e. refl)

    lowered-Working : Working n (record s { nodes = update k lowered s.nodes })
    unfolding lowered
    lowered-Working = record {
      in_use = w.in_use;
      is_open = w.is_open;
      closed_low = λ i lt e.
          update_cases (λ a. a.f ≤ (update k lowered s.nodes n).f) k lowered s.nodes i
            (λ same. absurd (cc (same, e, stays_open))) (λ other. rw f_n (w.closed_low i lt e));
      open_high = λ i lt e.
          update_cases (λ a. (update k lowered s.nodes n).f ≤ a.f) k lowered s.nodes i
            (λ same. rw f_n (omega (arith, cost))) (λ other. rw f_n (w.open_high i lt e));
      counted = w.counted;
    }

  improve-Working : (k : ℕ) → k < s.cur_node → Working n (improve k n f s)
  unfolding improve open_node lowered
  improve-Working k k_lt = elim (Bool-cases (leb (s.nodes k).f f)) [
    | inl e ↦ rw (e, improve) w
    | inr e ↦
        rw (e, improve)
          (rw (stays_open k k_lt (ground (arith, e))) (lowered-Working k k_lt (ground (arith, e))))
  ]

  improve_closed : (k : ℕ) → k < s.cur_node → (improve k n f s).closed_nodes ≡ s.closed_nodes
  unfolding improve open_node
  improve_closed k k_lt = ground (arith, stays_open k k_lt)

  added : ℕ → ℕ → ℕ → Node
  added parent x y = record { parent = some parent; x = x; y = y; f = f }

  grown : ℕ → ℕ → ℕ → Nodes
  grown parent x y = record {
    nodes = update s.cur_node (added parent x y) s.nodes;
    open_nodes = update s.cur_node true s.open_nodes;
    node_table = update (key x y) (some s.cur_node) s.node_table;
    cur_node = s.cur_node + 1;
    closed_nodes = s.closed_nodes;
  }

  grown-Working : (parent x y : ℕ) → Working n (grown parent x y)
  unfolding grown added opens
  grown-Working parent x y = record {
    in_use = omega (arith, w.in_use);
    is_open = ground (arith, w.is_open);
    closed_low = λ i lt e. ground (arith, e, lt, w.closed_low i, w.in_use);
    open_high = λ i lt e. ground (arith, e, lt, w.open_high i, w.in_use, cost);
    counted =
        rw add-one
          (ground (arith, w.counted, opens-update_above s.open_nodes s.cur_node true s.cur_node));
  }

  pub create-MayWork : (parent x y : ℕ) → MayWork n s.closed_nodes (create_open_node s parent x y f)
  unfolding create_open_node grown added
  create-MayWork parent x y = elim (Bool-cases (leb max_nodes s.cur_node)) [
    | inl full ↦ rw full tt
    | inr room ↦ rw room (grown-Working parent x y, refl)
  ]

module _ (n : ℕ) (q : Query) (s : Nodes) (t : Tree q s) (w : Working n s) where
  pub visit-MayWork : (g : Ground) (p : Position) → MayWork n s.closed_nodes (visit g n p s)
  unfolding visit get_node_by_position
  visit-MayWork g p =
      let f = (s.nodes n).f + get_map_walk_cost (s.nodes n) p + get_tile_walk_cost g p in
      let cost : (s.nodes n).f + 10 ≤ f = omega (arith, map_cost (s.nodes n) p) in
      elim (Option-cases (get_node_by_position s p)) [
        | inl e ↦
            rw (e, visit)
              (elim (Bool-cases (can_walk_to g p)) [
                | inl walk ↦ rw walk (create-MayWork n s w f cost n p.x p.y)
                | inr blocked ↦ rw blocked (w, refl)
              ])
        | inr (k, e) ↦
            let listed : Listed s (some k) (key p.x p.y) =
              subst (λ o. Listed s o (key p.x p.y)) e (t.listed (key p.x p.y)) in
            rw (e, visit)
              (improve-Working n s w f cost k listed.0, improve_closed n s w f cost k listed.0)
      ]
