-- ===== src/Tests/PathsTests.antt =====
-- src/map.cpp on an open field with a wall.
use zenonia.Base.{arith, ℕ, ◌≡◌, refl, true, false, not, ◌&&◌, some, [], ◌∷◌, leb, ltb, ◌==◌}
use zenonia.Base.Int.{pos}
use zenonia.Position.{
  Position, east, south, southeast, get_next_position, get_distance_x, get_distance_y,
}
use zenonia.Paths.Tree.{Inside}
use zenonia.Paths.Matching.{Leads, get_path_matching-Leads}
use zenonia.Paths.{can_walk_to, Ground, FindPathParams, Query, get_path_matching}

-- Ten by ten tiles; a wall from (104, 100) to (104, 102).
abbrev field : Ground
field = record {
  walk_cache = λ p. 2;
  has_tile = λ p. leb 100 p.x && ltb p.x 110 && leb 100 p.y && ltb p.y 110;
  is_own_tile = λ p. (p.x == 102) && (p.y == 101);
  may_enter = λ p. not ((p.x == 104) && leb p.y 102);
  has_creature = λ p. false;
  field_hurts = λ p. false;
  is_sight_clear = λ p q. true;
}

abbrev near : FindPathParams
near = record {
  full_path_search = true;
  clear_sight = true;
  allow_diagonal = true;
  keep_distance = false;
  max_search_dist = 0;
  min_target_dist = pos 0;
  max_target_dist = pos 1;
}

abbrev spot : ℕ → ℕ → Position
spot x y = record { x = x; y = y; z = 7 }

abbrev errand : Query
errand = record { ground = field; fpp = near; target = spot 104 103; start = spot 102 101 }

way : get_path_matching errand ≡ some (some (south ∷ east ∷ []))
unfolding get_path_matching get_next_position get_distance_x get_distance_y
way = refl

-- Where only the tile to the southeast is free, the first step is diagonal, also without diagonals.
abbrev corner : Query
corner = record {
  ground = record field { may_enter = λ p. (p.x == 103) && (p.y == 102) };
  fpp = record near { allow_diagonal = false };
  target = spot 104 103;
  start = spot 102 101;
}

diagonal_start : get_path_matching corner ≡ some (some (southeast ∷ []))
unfolding get_path_matching get_next_position get_distance_x get_distance_y
diagonal_start = refl

errand-Inside : Inside errand
unfolding can_walk_to
errand-Inside = record {
  start_inside = omega arith;
  tiles_inside = λ p h. record {
    x_low = ground (arith, h);
    x_high = ground (arith, h);
    y_low = ground (arith, h);
    y_high = ground (arith, h);
  };
}

get_path_matching-Leads_example : Leads errand (get_path_matching errand)
get_path_matching-Leads_example = get_path_matching-Leads errand errand-Inside
