-- ===== src/Paths/Rounds.antt =====
-- The rounds of src/map.cpp's path search: each closes one node for good.
use zenonia.Base.{
  ℕ, zero, suc, ◌+◌, ◌≤◌, ◌<◌, ◌≡◌, refl, subst, ◌∙◌, true, false, ◌&&◌, Option, none, some, List,
  [], ◌∷◌, ltb, ◌==◌, if◌then◌else◌, arith, Bool-cases, Option-cases, inl, inr,
}
use zenonia.Position.{Direction, get_next_position}
use zenonia.Paths.{Nodes, Query, close_node, expand, is_left_out, best_of, get_best_node}
use zenonia.Paths.Tree.{at, Inside, Tree}
use zenonia.Paths.Growth.{MayTree}
use zenonia.Paths.Expansion.{AreMoves, next_nodes, next_nodes-MayTree}
use zenonia.Paths.Frontier.{opens, opens-close, Working, MayWork, visit-MayWork}

-- Between two rounds: closed nodes cost no more than open ones.
pub record Ordered (s : Nodes) : Type 0 where
  pub closed_first :
      (i j : ℕ)
      → i < s.cur_node
      → j < s.cur_node
      → s.open_nodes i ≡ false
      → s.open_nodes j ≡ true
      → (s.nodes i).f ≤ (s.nodes j).f
  pub counted : s.closed_nodes + opens s.open_nodes s.cur_node ≡ s.cur_node

-- What the loop of `getBestNode` has after the first `k` nodes.
abbrev Best : Nodes → ℕ → Option ℕ × ℕ → Type 0
Best s k (none, f) = (i : ℕ) → i < k → s.open_nodes i ≡ true → f ≤ (s.nodes i).f
Best s k (some n, f) =
    (n < k)
    × (s.open_nodes n ≡ true)
    × (f ≡ (s.nodes n).f)
    × ((i : ℕ) → i < k → s.open_nodes i ≡ true → f ≤ (s.nodes i).f)

up_to : (P : ℕ → Type 0) (k : ℕ) → ((i : ℕ) → i < k → P i) → P k → (i : ℕ) → i < suc k → P i
up_to P k below here i lt = elim (Bool-cases (i == k)) [
  | inl e ↦ subst P (ground (arith, e)) here
  | inr e ↦ below i (ground (arith, e, lt))
]

-- No open node of the first `k` costs less than `f`.
abbrev NoLess : Nodes → ℕ → ℕ → Type 0
NoLess s f k = s.open_nodes k ≡ true → f ≤ (s.nodes k).f

Best-step :
    (s : Nodes) (k : ℕ) (b : Option ℕ × ℕ)
    → Best s k b
    → Best s
        (suc k)
        (if s.open_nodes k && ltb (s.nodes k).f b.1 then (some k, (s.nodes k).f) else b)
Best-step s k (none, f) h = elim (Bool-cases (s.open_nodes k && ltb (s.nodes k).f f)) [
  | inl e ↦ rw e (
    omega arith,
    ground (arith, e),
    refl,
    up_to (NoLess s (s.nodes k).f) k (λ i lt o. ground (arith, e, h i lt o)) (λ o. omega arith),
  )
  | inr e ↦ rw e (up_to (NoLess s f) k h (λ o. ground (arith, e, o)))
]
Best-step s k (some n, f) h = elim (Bool-cases (s.open_nodes k && ltb (s.nodes k).f f)) [
  | inl e ↦ rw e (
    omega arith,
    ground (arith, e),
    refl,
    up_to (NoLess s (s.nodes k).f) k (λ i lt o. ground (arith, e, h.3 i lt o)) (λ o. omega arith),
  )
  | inr e ↦
      rw e (omega (arith, h.0), h.1, h.2, up_to (NoLess s f) k h.3 (λ o. ground (arith, e, o)))
]

best_of-Best : (s : Nodes) (k : ℕ) → Best s k (best_of s k)
unfolding best_of
best_of-Best s zero = λ i lt e. absurd (omega (arith, lt))
best_of-Best s (suc k) = Best-step s k (best_of s k) (best_of-Best s k)

least :
    (s : Nodes) (b : Option ℕ × ℕ) (n : ℕ)
    → Ordered s
    → Best s s.cur_node b
    → b.0 ≡ some n
    → Working n s
least s (none, f) n o h e = absurd (cc (e))
least s (some i, f) n o h e =
    let same : i ≡ n = ground (arith, e) in
    subst (λ j. Working j s) same
      (record {
        in_use = h.0;
        is_open = h.1;
        closed_low = λ j lt c. o.closed_first j i lt h.0 c h.1;
        open_high = λ j lt c. omega (arith, h.2, h.3 j lt c);
        counted = o.counted;
      })

pub get_best_node-Working :
    (s : Nodes) → Ordered s → (n : ℕ) → get_best_node s ≡ some n → Working n s
unfolding get_best_node
get_best_node-Working s o n e = least s (best_of s s.cur_node) n o (best_of-Best s s.cur_node) e

pub close_node-Ordered : (n : ℕ) (s : Nodes) → Working n s → Ordered (close_node n s)
unfolding close_node
close_node-Ordered n s w = record {
  closed_first = λ i j lt lt' e e'. ground (arith, e, e', lt, lt', w.closed_low i, w.open_high j);
  counted = omega (arith, w.counted, opens-close s.open_nodes n s.cur_node w.in_use w.is_open);
}

module _ (q : Query) (inside : Inside q) (n : ℕ) where
  next_nodes-MayWork :
      (d : Direction) (s : Nodes)
      → Tree q s
      → Working n s
      → MayWork n s.closed_nodes (next_nodes q n d s)
  next_nodes-MayWork d s t w =
      let p = get_next_position d (at q (s.nodes n)) in
      elim (Bool-cases (is_left_out q.fpp q.target q.start p)) [
        | inl e ↦ rw e (w, refl)
        | inr e ↦ rw e (visit-MayWork n q s t w q.ground p)
      ]

  pub expand-Working :
      (ds : List Direction)
      → AreMoves ds
      → (s : Nodes) → Tree q s
      → Working n s
      → Working n (expand q n ds s).0 × ((expand q n ds s).0.closed_nodes ≡ s.closed_nodes)
  unfolding expand
  expand-Working [] moves s t w = (w, refl)
  expand-Working (d ∷ ds) moves s t w =
      let tree = next_nodes-MayTree q inside n d moves.0 s t w.in_use in
      let work = next_nodes-MayWork d s t w in
      elim (Option-cases (next_nodes q n d s)) [
        | inl e ↦ rw (e, expand) (w, refl)
        | inr (s', e) ↦
            let tree' : MayTree q n (some s') = subst (λ o. MayTree q n o) e tree in
            let work' : MayWork n s.closed_nodes (some s') =
              subst (λ o. MayWork n s.closed_nodes o) e work in
            let rest = expand-Working ds moves.1 s' tree'.0 work'.0 in
            rw (e, expand) (rest.0, rest.1 ∙ work'.1)
      ]
