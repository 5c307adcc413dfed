-- ===== src/Tests/TilesTests.antt =====
-- src/map.cpp on a map with a few tiles.
use zenonia.Base.{arith, ℕ, ◌+◌, ◌*◌, ◌≡◌, refl, some, [], ◌∷◌, List}
use zenonia.Tiles.{Map, connect, set_tile, get_tile}
use zenonia.Tiles.History.{Call, set_tiles, get_tile-set_tiles}

-- Two tiles at one position are made into one.
abbrev both : ℕ → ℕ → ℕ
both old tile = old * 100 + tile

abbrev call : ℕ → ℕ → ℕ → ℕ → Call
call x y z tile = record { x = x; y = y; z = z; tile = tile }

-- Two tiles in a square, one of them twice; one east of it, one on a layer that no map has.
abbrev calls : List Call
calls =
    call 101 100 7 5
    ∷ call 101 100 16 4
    ∷ call 105 100 7 3
    ∷ call 96 103 7 2
    ∷ call 101 100 7 1
    ∷ []

abbrev town : Map
town = set_tiles both calls

twice : get_tile 101 100 7 town ≡ some 105
unfolding set_tile get_tile
twice = refl

-- The squares of (96, 96) and (104, 96) are the leaves 0 and 1.
east_link : (town.leaves 0).leaf_e ≡ some 1
unfolding set_tile connect
east_link = refl

-- A leaf at the west edge becomes the east neighbour of the one at the east edge.
abbrev edges : Map
edges = set_tiles both (call 0 100 7 2 ∷ call 65535 100 7 1 ∷ [])

round_the_edge : (edges.leaves 0).leaf_e ≡ some 1
unfolding set_tile connect
round_the_edge = refl

get_tile-set_tiles_example : get_tile 101 100 7 (set_tiles both calls) ≡ some 105
get_tile-set_tiles_example =
    get_tile-set_tiles both calls 101 100 7
      (
        (ground arith, ground arith),
        (
          (ground arith, ground arith),
          (
            (ground arith, ground arith),
            ((ground arith, ground arith), ((ground arith, ground arith), tt)),
          ),
        ),
      )
      (ground arith) (ground arith)
