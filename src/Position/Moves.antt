-- ===== src/Position/Moves.antt =====
-- Positions that have all the neighbours of `getNextPosition` of src/tools.cpp.
use zenonia.Base.{◌<◌}
use zenonia.Position.{Position}

-- A position with a neighbour on every side.
pub record Inland (p : Position) : Type 0 where
  pub x_low : 0 < p.x
  pub x_high : p.x < 65535
  pub y_low : 0 < p.y
  pub y_high : p.y < 65535
