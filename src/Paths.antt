-- ===== src/Paths.antt =====
-- The path search of src/map.cpp: `Map::getPathMatching` on `AStarNodes`, with the condition that
-- src/creature.cpp hands it. The map and the creature are arguments; a pointer to a node is its index.
pub mod Matching
pub mod Ending
pub mod Places
pub mod Walks
pub mod Rounds
pub mod Frontier
pub mod Expansion
pub mod Growth
pub mod Tree
use zenonia.Base.{
  ℕ, zero, suc, ◌+◌, ◌-◌, ◌*◌, ◌<◌, Bool, true, false, not, ◌&&◌, ◌||◌, Option, none, some, List,
  [], ◌∷◌, max, update, ltb, leb, ◌==◌, if◌then◌else◌,
}
use zenonia.Base.Int.{ℤ, pos, negsuc}
use zenonia.Position.{
  Position, Direction, north, east, south, west, southwest, southeast, northwest, northeast,
  unmoved, get_next_position, get_distance_x, get_distance_y,
}

pub record Node : Type 0 where
  pub parent : Option ℕ
  pub x : ℕ
  pub y : ℕ
  pub f : ℕ

pub record Nodes : Type 0 where
  pub nodes : ℕ → Node
  pub open_nodes : ℕ → Bool
  pub node_table : ℕ → Option ℕ
  pub cur_node : ℕ
  pub closed_nodes : ℕ

-- Distances that are not set are -1.
pub record FindPathParams : Type 0 where
  pub full_path_search : Bool
  pub clear_sight : Bool
  pub allow_diagonal : Bool
  pub keep_distance : Bool
  pub max_search_dist : ℕ
  pub min_target_dist : ℤ
  pub max_target_dist : ℤ

-- What the search reads of the map and of the creature, at its floor: the cached answer of
-- `getWalkCache`, whether there is a tile, whether it is the creature's own, whether `queryAdd` lets the
-- creature pass, whether another creature stands there, and whether a field hurts.
pub record Ground : Type 0 where
  pub walk_cache : Position → ℕ
  pub has_tile : Position → Bool
  pub is_own_tile : Position → Bool
  pub may_enter : Position → Bool
  pub has_creature : Position → Bool
  pub field_hurts : Position → Bool
  pub is_sight_clear : Position → Position → Bool

-- `(x << 16) | y` of two numbers of 16 bits.
unfoldable pub key : ℕ → ℕ → ℕ
key x y = x * 65536 + y

-- The constructor; what it leaves of the array of nodes is as in the first.
unfoldable pub new_nodes : ℕ → ℕ → Nodes
unfolding key
new_nodes x y = record {
  nodes = λ i. record { parent = none; x = x; y = y; f = 0 };
  open_nodes = update 0 true (λ i. false);
  node_table = update (key x y) (some 0) (λ k. none);
  cur_node = 1;
  closed_nodes = 0;
}

abbrev pub max_nodes : ℕ
max_nodes = 512

unfoldable pub create_open_node : Nodes → ℕ → ℕ → ℕ → ℕ → Option Nodes
unfolding key
create_open_node s parent x y f =
    if leb max_nodes s.cur_node
    then none
    else some (record {
      nodes = update s.cur_node (record { parent = some parent; x = x; y = y; f = f }) s.nodes;
      open_nodes = update s.cur_node true s.open_nodes;
      node_table = update (key x y) (some s.cur_node) s.node_table;
      cur_node = s.cur_node + 1;
      closed_nodes = s.closed_nodes;
    })

-- The loop of `getBestNode` over the first `n` nodes: the best so far and its cost.
unfoldable pub best_of : Nodes → ℕ → Option ℕ × ℕ
best_of s zero = (none, 2147483647)
best_of s (suc i) =
    let (best, f) = best_of s i in
    if s.open_nodes i && ltb (s.nodes i).f f then (some i, (s.nodes i).f) else (best, f)

unfoldable pub get_best_node : Nodes → Option ℕ
unfolding best_of
get_best_node s = (best_of s s.cur_node).0

unfoldable pub close_node : ℕ → Nodes → Nodes
close_node i s = record s {
  open_nodes = update i false s.open_nodes;
  closed_nodes = s.closed_nodes + 1;
}

unfoldable pub open_node : ℕ → Nodes → Nodes
open_node i s =
    if s.open_nodes i
    then s
    else record s { open_nodes = update i true s.open_nodes; closed_nodes = s.closed_nodes - 1 }

unfoldable pub get_node_by_position : Nodes → Position → Option ℕ
unfolding key
get_node_by_position s p = s.node_table (key p.x p.y)

unfoldable pub distance : ℕ → ℕ → ℕ
distance a b = if leb a b then b - a else a - b

unfoldable pub get_map_walk_cost : Node → Position → ℕ
unfolding distance
get_map_walk_cost n p = if distance n.x p.x == distance n.y p.y then 25 else 10

unfoldable pub get_tile_walk_cost : Ground → Position → ℕ
get_tile_walk_cost g p =
    (if g.has_creature p then 10 * 3 else 0) + (if g.field_hurts p then 10 * 18 else 0)

-- Whether `canWalkTo` gives a tile.
unfoldable pub can_walk_to : Ground → Position → Bool
can_walk_to g p =
    if g.walk_cache p == 0
    then false
    else if g.walk_cache p == 1
    then g.has_tile p
    else if g.is_own_tile p
    then g.has_tile p
    else g.has_tile p && g.may_enter p

-- `a > b + d` and `a < b - d` of unsigned coordinates and a distance.
abbrev pub above : ℕ → ℕ → ℤ → Bool
above a b (pos d) = ltb (b + d) a
above a b (negsuc d) = ltb b (a + d + 1)

abbrev pub below : ℕ → ℕ → ℤ → Bool
below a b (pos d) = ltb (a + d) b
below a b (negsuc d) = ltb a (b + d + 1)

-- One coordinate: the start, the target, the tested one.
unfoldable pub is_coordinate_in_range : FindPathParams → ℕ → ℕ → ℕ → Bool
is_coordinate_in_range fpp start target test =
    let upper = if fpp.full_path_search || leb target start then fpp.max_target_dist else pos 0 in
    let lower = if fpp.full_path_search || leb start target then fpp.max_target_dist else pos 0 in
    not (above test target upper) && not (below test target lower)

unfoldable pub is_in_range : FindPathParams → Position → Position → Position → Bool
unfolding is_coordinate_in_range
is_in_range fpp target start test =
    is_coordinate_in_range fpp start.x target.x test.x
    && is_coordinate_in_range fpp start.y target.y test.y

-- `t < d` and `d < t` of a distance and one that may be negative.
abbrev pub is_less : ℕ → ℤ → Bool
is_less t (pos d) = ltb t d
is_less t (negsuc d) = false

abbrev pub is_more : ℕ → ℤ → Bool
is_more t (pos d) = ltb d t
is_more t (negsuc d) = true

abbrev pub is_exactly : ℕ → ℤ → Bool
is_exactly t (pos d) = t == d
is_exactly t (negsuc d) = false

-- `operator()` of the condition: does the position match, and the best distance afterwards.
unfoldable pub path_condition :
    Ground → FindPathParams → Position → Position → Position → ℕ → Bool × ℕ
unfolding is_in_range
path_condition g fpp target start test best_match =
    let test_dist = max (get_distance_x target test) (get_distance_y target test) in
    if not (is_in_range fpp target start test)
    then (false, best_match)
    else if fpp.clear_sight && not (g.is_sight_clear test target)
    then (false, best_match)
    else if is_exactly 1 fpp.max_target_dist
    then (
      not (is_less test_dist fpp.min_target_dist || is_more test_dist fpp.max_target_dist),
      best_match,
    )
    else if not (is_more test_dist fpp.max_target_dist)
    then (if is_less test_dist fpp.min_target_dist
        then (false, best_match)
        else if is_exactly test_dist fpp.max_target_dist
        then (true, 0)
        else if ltb best_match test_dist
        then (true, test_dist)
        else (false, best_match))
    else (false, best_match)

-- `allNeighbors` and the rows of `dirNeighbors`, each offset as the direction that it is.
abbrev pub all_neighbors : List Direction
all_neighbors = west ∷ south ∷ east ∷ north ∷ northwest ∷ northeast ∷ southeast ∷ southwest ∷ []

unfoldable pub dir_neighbors : Bool → Direction → List Direction
dir_neighbors diagonal north =
    west ∷ south ∷ east ∷ (if diagonal then southeast ∷ southwest ∷ [] else [])
dir_neighbors diagonal east =
    west ∷ south ∷ north ∷ (if diagonal then northwest ∷ southwest ∷ [] else [])
dir_neighbors diagonal south =
    west ∷ east ∷ north ∷ (if diagonal then northwest ∷ northeast ∷ [] else [])
dir_neighbors diagonal west =
    south ∷ east ∷ north ∷ (if diagonal then northeast ∷ southeast ∷ [] else [])
dir_neighbors diagonal southwest =
    east ∷ north ∷ northwest ∷ (if diagonal then northeast ∷ southeast ∷ [] else [])
dir_neighbors diagonal southeast =
    west ∷ north ∷ northwest ∷ (if diagonal then northeast ∷ southwest ∷ [] else [])
dir_neighbors diagonal northwest =
    south ∷ east ∷ northeast ∷ (if diagonal then southeast ∷ southwest ∷ [] else [])
dir_neighbors diagonal northeast =
    west ∷ south ∷ northwest ∷ (if diagonal then southeast ∷ southwest ∷ [] else [])
dir_neighbors diagonal unmoved = []

-- The row for a node and its parent, by `parent - node` in each coordinate.
unfoldable pub row_for : Bool → Node → Node → Direction
row_for diagonal n parent =
    if parent.y == n.y
    then (if parent.x + 1 == n.x then west else east)
    else if not diagonal || parent.x == n.x
    then (if parent.y + 1 == n.y then north else south)
    else if parent.y + 1 == n.y
    then (if parent.x + 1 == n.x then northwest else northeast)
    else if parent.x + 1 == n.x
    then southwest
    else southeast

unfoldable pub neighbors_of : FindPathParams → Nodes → Node → List Direction
unfolding dir_neighbors row_for
neighbors_of fpp s n = elim n.parent [
  | none ↦ all_neighbors
  | some p ↦ dir_neighbors fpp.allow_diagonal (row_for fpp.allow_diagonal n (s.nodes p))
]

unfoldable pub is_left_out : FindPathParams → Position → Position → Position → Bool
unfolding is_in_range
is_left_out fpp target start p =
    (not (fpp.max_search_dist == 0)
      && (ltb fpp.max_search_dist (get_distance_x start p)
          || ltb fpp.max_search_dist (get_distance_y start p)))
    || (fpp.keep_distance && not (is_in_range fpp target start p))

-- The node of a neighbour that is known already gets a lower cost and a new parent.
unfoldable pub improve : ℕ → ℕ → ℕ → Nodes → Nodes
unfolding open_node
improve k n f s =
    if leb (s.nodes k).f f
    then s
    else open_node k
        (record s { nodes = update k (record (s.nodes k) { f = f; parent = some n }) s.nodes })

-- One neighbour of the node `n` at the position `p`; `none` if there is no room for a node.
unfoldable pub visit : Ground → ℕ → Position → Nodes → Option Nodes
unfolding get_node_by_position can_walk_to get_map_walk_cost get_tile_walk_cost create_open_node
    improve
visit g n p s =
    let f = (s.nodes n).f + get_map_walk_cost (s.nodes n) p + get_tile_walk_cost g p in
    elim (get_node_by_position s p) [
      | some k ↦ some (improve k n f s)
      | none ↦ if can_walk_to g p then create_open_node s n p.x p.y f else some s
    ]

abbrev pub position_of : Node → ℕ → Position
position_of n z = record { x = n.x; y = n.y; z = z }

-- What the search is called with.
pub record Query : Type 0 where
  pub ground : Ground
  pub fpp : FindPathParams
  pub target : Position
  pub start : Position

-- The loop over the neighbours: the nodes, and whether there was room for all.
unfoldable pub expand : Query → ℕ → List Direction → Nodes → Nodes × Bool
unfolding is_left_out visit
expand q n [] s = (s, true)
expand q n (d ∷ ds) s =
    let p = get_next_position d (position_of (s.nodes n) q.start.z) in
    elim (if is_left_out q.fpp q.target q.start p then some s else visit q.ground n p s) [
      | none ↦ (s, false)
      | some s' ↦ expand q n ds s'
    ]

pub record Progress : Type 0 where
  pub found : Option ℕ
  pub best_match : ℕ
  pub state : Nodes

pub data Turn : Type 0 where
  -- The loop goes on, ends with what is found, or the function returns false.
  again : Progress → Turn
  done : Progress → Turn
  failed : Turn

-- The rest of a turn, after the condition.
unfoldable pub spread : Query → ℕ → Progress → Turn
unfolding expand neighbors_of close_node
spread q n progress =
    let s = progress.state in
    let (s', room) = expand q n (neighbors_of q.fpp s (s.nodes n)) s in
    if room then again (record progress { state = close_node n s' }) else elim progress.found [
      | none ↦ failed
      | some i ↦ again (record progress { state = close_node n s' })
    ]

unfoldable pub turn : Query → Progress → Turn
unfolding get_best_node path_condition spread
turn q progress =
    let s = progress.state in
    elim (get_best_node s) [
      | none ↦ elim progress.found [ none ↦ failed | some i ↦ done progress ]
      | some n ↦
          let p = position_of (s.nodes n) q.start.z in
          let (matches, best_match) =
            path_condition q.ground q.fpp q.target q.start p progress.best_match in
          let progress' = record progress { best_match = best_match } in
          if matches
          then (if best_match == 0
              then done (record progress' { found = some n })
              else spread q n (record progress' { found = some n }))
          else spread q n progress'
    ]

-- The loop with fuel: `none` if it runs out, else what is found, or `none` for false.
unfoldable pub search : ℕ → Query → Progress → Option (Option Progress)
unfolding turn
search zero q progress = none
search (suc fuel) q progress =
    if q.fpp.max_search_dist == 0 && leb 100 progress.state.closed_nodes
    then some (some progress)
    else elim (turn q progress) [
      | failed ↦ some none
      | done progress' ↦ some (some progress')
      | again progress' ↦ search fuel q progress'
    ]

-- The direction of the step from a node to the one after it, pushed in front.
unfoldable pub push_step : Node → Node → List Direction → List Direction
push_step n after dirs =
    let west_of = n.x + 1 == after.x in
    let east_of = after.x + 1 == n.x in
    let north_of = n.y + 1 == after.y in
    let south_of = after.y + 1 == n.y in
    if east_of && south_of
    then northwest ∷ dirs
    else if west_of && south_of
    then northeast ∷ dirs
    else if east_of && north_of
    then southwest ∷ dirs
    else if west_of && north_of
    then southeast ∷ dirs
    else if east_of
    then west ∷ dirs
    else if west_of
    then east ∷ dirs
    else if south_of
    then north ∷ dirs
    else if north_of
    then south ∷ dirs
    else dirs

-- The loop along the parents, with fuel: from the node that was reached last.
unfoldable pub trace : ℕ → Nodes → ℕ → List Direction → Option (List Direction)
unfolding push_step
trace zero s i dirs = none
trace (suc fuel) s i dirs = elim (s.nodes i).parent [
  | none ↦ some dirs
  | some p ↦ trace fuel s p (push_step (s.nodes p) (s.nodes i) dirs)
]

-- `none` if the fuel runs out; else the steps, or `none` for false.
unfoldable pub path_to : Option Progress → Option (Option (List Direction))
unfolding trace
path_to none = some none
path_to (some progress) = elim progress.found [
  | none ↦ some none
  | some i ↦ elim (trace ((progress.state.nodes i).f + 1) progress.state i []) [
    | none ↦ none
    | some dirs ↦ some (some dirs)
  ]
]

-- The function with fuel for its main loop.
unfoldable pub path_with : ℕ → Query → Option (Option (List Direction))
unfolding new_nodes search path_to
path_with fuel q =
    let start : Progress = record {
      found = none;
      best_match = 0;
      state = new_nodes q.start.x q.start.y;
    } in
    elim (search fuel q start) [ none ↦ none | some result ↦ path_to result ]

unfoldable pub get_path_matching : Query → Option (Option (List Direction))
unfolding path_with
get_path_matching q = path_with (max_nodes + 1) q
