-- ===== src/Paths/Tree.antt =====
-- The nodes of src/map.cpp's path search form a tree of single steps from the start.
use zenonia.Base.{
  ℕ, ◌+◌, ◌≤◌, ◌<◌, ◌≡◌, ◌≢◌, true, Option, none, some, update, ◌==◌, arith, Bool-cases, inl, inr,
}
use zenonia.Position.{Position, Direction, unmoved, get_next_position}
use zenonia.Position.Moves.{Inland}
use zenonia.Paths.{
  Node, Nodes, Query, key, open_node, close_node, can_walk_to, position_of, max_nodes,
}

-- One step of a creature.
abbrev pub Step : Position → Position → Type 0
Step a b = (d : Direction) × (d ≢ unmoved) × (get_next_position d a ≡ b)

abbrev pub at : Query → Node → Position
at q n = position_of n q.start.z

-- The second node is one step from the first, at a higher cost, where the creature can walk.
abbrev pub Link : Query → Node → Node → Type 0
Link q a b = (a.f + 10 ≤ b.f) × (can_walk_to q.ground (at q b) ≡ true) × Step (at q a) (at q b)

abbrev pub Root : Query → Node → Type 0
Root q n = (n.x ≡ q.start.x) × (n.y ≡ q.start.y) × (n.f ≡ 0)

abbrev pub LinkedBy : Query → Nodes → Node → Option ℕ → Type 0
LinkedBy q s n none = Root q n
LinkedBy q s n (some p) = (p < s.cur_node) × Link q (s.nodes p) n

abbrev pub Linked : Query → Nodes → ℕ → Type 0
Linked q s i = LinkedBy q s (s.nodes i) (s.nodes i).parent

-- The table has nodes by their coordinates.
abbrev pub Listed : Nodes → Option ℕ → ℕ → Type 0
Listed s none k = Unit
Listed s (some i) k = (i < s.cur_node) × (key (s.nodes i).x (s.nodes i).y ≡ k)

-- The start and the tiles where the creature can walk have a neighbour on every side.
pub record Inside (q : Query) : Type 0 where
  pub start_inside : Inland q.start
  pub tiles_inside : (p : Position) → can_walk_to q.ground p ≡ true → Inland p

pub record Tree (q : Query) (s : Nodes) : Type 0 where
  pub linked : (i : ℕ) → i < s.cur_node → Linked q s i
  pub listed : (k : ℕ) → Listed s (s.node_table k) k
  pub room : s.cur_node ≤ max_nodes

pub update_cases :
    {A : Type 0} (P : A → Type 0) (k : ℕ) (v : A) (f : ℕ → A) (i : ℕ)
    → (i ≡ k → P v)
    → (i ≢ k → P (f i))
    → P (update k v f i)
update_cases P k v f i here there = elim (Bool-cases (i == k)) [
  | inl e ↦ rw (e, update) (here (ground (arith, e)))
  | inr e ↦ rw (e, update) (there (λ e'. ground (arith, e, e')))
]

linked-Inland :
    (q : Query)
    → Inside q
    → (s : Nodes) (n : Node) (o : Option ℕ) → LinkedBy q s n o
    → Inland (at q n)
linked-Inland q inside s n none h = omega (arith, inside.start_inside)
linked-Inland q inside s n (some p) h = inside.tiles_inside (at q n) h.1.1

pub node-Inland :
    (q : Query)
    → Inside q
    → (s : Nodes) → Tree q s
    → (i : ℕ) → i < s.cur_node
    → Inland (at q (s.nodes i))
node-Inland q inside s t i lt =
    linked-Inland q inside s (s.nodes i) (s.nodes i).parent (t.linked i lt)

-- The key of a position of 16 bits is that of no other.
pub key-inj : (x y x' y' : ℕ) → y < 65536 → y' < 65536 → key x y ≡ key x' y' → (x ≡ x') × (y ≡ y')
unfolding key
key-inj x y x' y' h h' e = omega arith

-- A node with lower cost or the same at the same place.
abbrev pub Lower : Node → Node → Type 0
Lower a b = (a.x ≡ b.x) × (a.y ≡ b.y) × (a.f ≤ b.f)

-- The links of a node outlast a lower cost of its parent.
module _ (q : Query) (s s' : Nodes) (grows : s.cur_node ≤ s'.cur_node) where
  pub keep-Link : (n a b : Node) → Lower b a → Link q a n → Link q b n
  keep-Link n a b (ex, ey, lower) (cost, walk, step) =
      (omega (arith, lower, cost), walk, rw (ex, ey) step)

  pub keep-LinkedBy :
      (n : Node) (o : Option ℕ)
      → ((i : ℕ) → i < s.cur_node → Lower (s'.nodes i) (s.nodes i))
      → LinkedBy q s n o
      → LinkedBy q s' n o
  keep-LinkedBy n none lower h = h
  keep-LinkedBy n (some p) lower (lt, link) =
      (omega (arith, lt, grows), keep-Link n (s.nodes p) (s'.nodes p) (lower p lt) link)

  pub keep-Listed :
      (o : Option ℕ) (k : ℕ)
      → ((i : ℕ) → i < s.cur_node → Lower (s'.nodes i) (s.nodes i))
      → Listed s o k
      → Listed s' o k
  keep-Listed none k lower h = tt
  keep-Listed (some i) k lower (lt, e) =
      (omega (arith, lt, grows), rw ((lower i lt).0, (lower i lt).1) e)

pub open_node-Tree : (q : Query) (k : ℕ) (s : Nodes) → Tree q s → Tree q (open_node k s)
unfolding open_node
open_node-Tree q k s t = elim (Bool-cases (s.open_nodes k)) [
  | inl e ↦ rw (e, open_node) t
  | inr e ↦ rw (e, open_node) (record { linked = t.linked; listed = t.listed; room = t.room })
]

pub close_node-Tree : (q : Query) (k : ℕ) (s : Nodes) → Tree q s → Tree q (close_node k s)
unfolding close_node
close_node-Tree q k s t = record { linked = t.linked; listed = t.listed; room = t.room }

-- A node that costs something can be walked on.
pub LinkedBy-walk :
    (q : Query) (s : Nodes) (n : Node) (o : Option ℕ)
    → 0 < n.f
    → LinkedBy q s n o
    → can_walk_to q.ground (at q n) ≡ true
LinkedBy-walk q s n none cost h = absurd (omega (arith, cost, h.2))
LinkedBy-walk q s n (some p) cost h = h.1.1
