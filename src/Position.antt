-- ===== src/Position.antt =====
-- Map coordinates and directions: src/position.h and the two functions on directions of
-- src/tools.cpp. Coordinates are `uint16_t` and floors `uint8_t`, with their wrap-around.
pub mod Moves
use zenonia.Base.{
  ℕ, ◌+◌, ◌-◌, ◌%◌, ◌<◌, Bool, true, false, not, ◌&&◌, ltb, leb, ◌==◌, if◌then◌else◌,
}
use zenonia.Base.Int.{ℤ, sub_ℕ, abs, is_neg}

pub record Position : Type 0 where
  pub x : ℕ
  pub y : ℕ
  pub z : ℕ

pub record InWords (p : Position) : Type 0 where
  pub x_fits : p.x < 65536
  pub y_fits : p.y < 65536
  pub z_fits : p.z < 256

unfoldable pub get_offset_x : Position → Position → ℤ
get_offset_x p q = sub_ℕ p.x q.x

unfoldable pub get_offset_y : Position → Position → ℤ
get_offset_y p q = sub_ℕ p.y q.y

unfoldable pub get_offset_z : Position → Position → ℤ
get_offset_z p q = sub_ℕ p.z q.z

unfoldable pub get_distance_x : Position → Position → ℕ
unfolding get_offset_x
get_distance_x p q = abs (get_offset_x p q)

unfoldable pub get_distance_y : Position → Position → ℕ
unfolding get_offset_y
get_distance_y p q = abs (get_offset_y p q)

unfoldable pub get_distance_z : Position → Position → ℕ
unfolding get_offset_z
get_distance_z p q = abs (get_offset_z p q)

-- `areInRange<dx, dy, dz>`
unfoldable pub are_in_range : ℕ → ℕ → ℕ → Position → Position → Bool
unfolding get_distance_x get_distance_y get_distance_z
are_in_range dx dy dz p q =
    leb (get_distance_x p q) dx && leb (get_distance_y p q) dy && leb (get_distance_z p q) dz

-- `operator<`
unfoldable pub before : Position → Position → Bool
before p q =
    if ltb p.z q.z
    then true
    else if ltb q.z p.z
    then false
    else if ltb p.y q.y
    then true
    else if ltb q.y p.y
    then false
    else if ltb p.x q.x
    then true
    else if ltb q.x p.x
    then false
    else false

-- `operator>`
unfoldable pub after : Position → Position → Bool
unfolding before
after p q = not (before p q)

-- `operator==`
unfoldable pub same : Position → Position → Bool
same p q = (q.x == p.x) && (q.y == p.y) && (q.z == p.z)

-- `operator+`
unfoldable pub plus : Position → Position → Position
plus p q = record { x = (p.x + q.x) % 65536; y = (p.y + q.y) % 65536; z = (p.z + q.z) % 256 }

-- `operator-`
unfoldable pub minus : Position → Position → Position
minus p q = record {
  x = (p.x + 65536 - q.x) % 65536;
  y = (p.y + 65536 - q.y) % 65536;
  z = (p.z + 256 - q.z) % 256;
}

-- `DIRECTION_NONE` stands for every value that the switch of `getNextPosition` does not name.
pub data Direction : Type 0 where
  north east south west southwest southeast northwest northeast unmoved : Direction

-- `++` and `--` on a `uint16_t`
inc : ℕ → ℕ
inc v = (v + 1) % 65536

dec : ℕ → ℕ
dec v = (v + 65535) % 65536

unfoldable pub get_next_position : Direction → Position → Position
unfolding inc dec
get_next_position north p = record p { y = dec p.y }
get_next_position south p = record p { y = inc p.y }
get_next_position west p = record p { x = dec p.x }
get_next_position east p = record p { x = inc p.x }
get_next_position southwest p = record p { x = dec p.x; y = inc p.y }
get_next_position northwest p = record p { x = dec p.x; y = dec p.y }
get_next_position northeast p = record p { x = inc p.x; y = dec p.y }
get_next_position southeast p = record p { x = inc p.x; y = inc p.y }
get_next_position unmoved p = p

-- `getDirectionTo`, from the sign and the size of each offset; the flag says that `dir` is east.
towards : Bool → Bool → ℕ → ℕ → Direction
towards is_east y_neg x_offset y_offset =
    let dir = if is_east then east else west in
    if not y_neg
    then (if ltb x_offset y_offset
        then north
        else if y_offset == x_offset
        then (if is_east then northeast else northwest)
        else dir)
    else if ltb x_offset y_offset
    then south
    else if y_offset == x_offset
    then (if is_east then southeast else southwest)
    else dir

unfoldable pub get_direction_to : Position → Position → Direction
unfolding towards get_offset_x get_offset_y
get_direction_to p q =
    let dx = get_offset_x p q in
    let dy = get_offset_y p q in towards (is_neg dx) (is_neg dy) (abs dx) (abs dy)
