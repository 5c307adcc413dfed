-- ===== src/Paths/Matching.antt =====
-- What `Map::getPathMatching` of src/map.cpp returns.
use zenonia.Base.{ℕ, ◌+◌, ◌<◌, refl, sym, Option, none, some, List, [], arith}
use zenonia.Position.{Position, Direction}
use zenonia.Paths.{
  Nodes, Query, Progress, new_nodes, max_nodes, search, path_to, trace, path_with,
  get_path_matching, key,
}
use zenonia.Paths.Tree.{at, Inside, Tree, Listed, update_cases}
use zenonia.Paths.Frontier.{opens}
use zenonia.Paths.Walks.{Walks, Traced, trace-Traced}
use zenonia.Paths.Ending.{Matches, IsMatch, Going, Ended, search-Ended}

-- The function returns false, or steps that lead from the start to a match.
abbrev pub Leads : Query → Option (Option (List Direction)) → Type 0
Leads q none = ⊥
Leads q (some none) = Unit
Leads q (some (some dirs)) = (p : Position) × Walks q q.start dirs p × Matches q p

module _ (q : Query) (inside : Inside q) where
  start : Progress
  start = record { found = none; best_match = 0; state = new_nodes q.start.x q.start.y }

  start-Going : Going q start
  unfolding start new_nodes opens
  start-Going = record {
    tree = record {
      linked = λ i lt. (refl, refl, refl);
      listed = λ k.
          update_cases (λ o. Listed (new_nodes q.start.x q.start.y) o k) (key q.start.x q.start.y)
            (some 0) (λ k'. none) k (λ e. (omega arith, sym e)) (λ e. tt);
      room = omega arith;
    };
    ordered = record { closed_first = λ i j lt lt' e e'. omega arith; counted = refl };
    matched = tt;
  }

  traced :
      (s : Nodes) (i : ℕ) (o : Option (List Direction))
      → Matches q (at q (s.nodes i))
      → Traced q (at q (s.nodes i)) o
      → Leads q (elim o [ none ↦ none | some dirs ↦ some (some dirs) ])
  traced s i none m h = h
  traced s i (some dirs) m h = (at q (s.nodes i), h, m)

  found-Leads :
      (p : Progress) (o : Option ℕ)
      → Tree q p.state
      → IsMatch q p.state o
      → Leads q (elim o [
        | none ↦ some none
        | some i ↦ elim (trace ((p.state.nodes i).f + 1) p.state i []) [
          | none ↦ none
          | some dirs ↦ some (some dirs)
        ]
      ])
  found-Leads p none t m = tt
  found-Leads p (some i) t m = traced p.state i (trace ((p.state.nodes i).f + 1) p.state i []) m.1 (
      trace-Traced q inside p.state t (at q (p.state.nodes i)) ((p.state.nodes i).f + 1) i [] m.0
        (omega arith) refl)

  path_to-Leads : (r : Option Progress) → Ended q inside (some r) → Leads q (path_to r)
  unfolding path_to
  path_to-Leads none h = tt
  path_to-Leads (some p) h = found-Leads p p.found h.0 h.1

  searched-Leads :
      (o : Option (Option Progress))
      → Ended q inside o
      → Leads q (elim o [ none ↦ none | some result ↦ path_to result ])
  searched-Leads none h = h
  searched-Leads (some r) h = path_to-Leads r h

  path_with-Leads : (fuel : ℕ) → max_nodes < fuel → Leads q (path_with fuel q)
  unfolding path_with start
  path_with-Leads fuel enough =
      searched-Leads (search fuel q start)
        (search-Ended q inside fuel start start-Going (omega (arith, enough)))

  -- The search comes to an end within its fuel, one round for each node that there is room for, and the
  -- steps that it returns lead from the start, over tiles where the creature can walk, to a position
  -- where the condition has held; the start and all such tiles lie off the edge of the map.
  pub get_path_matching-Leads : Leads q (get_path_matching q)
  unfolding get_path_matching
  get_path_matching-Leads = path_with-Leads (max_nodes + 1) (omega arith)
