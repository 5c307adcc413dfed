-- ===== src/Tests/PositionTests.antt =====
-- src/position.h and the directions of src/tools.cpp on concrete positions.
use zenonia.Base.{◌≡◌, refl}
use zenonia.Position.{Position, minus}

abbrev temple : Position
temple = record { x = 95; y = 117; z = 7 }

abbrev depot : Position
depot = record { x = 100; y = 117; z = 7 }

abbrev cellar : Position
cellar = record { x = 100; y = 117; z = 8 }

-- x wraps below 0.
west_edge : minus temple depot ≡ record { x = 65531; y = 0; z = 0 }
unfolding minus
west_edge = refl
