-- ===== src/Containers/FreeSlots.antt =====
-- `getFreeSlots` of src/container.cpp against the room that the containers have.
use zenonia.Base.{ℕ, ◌+◌, ◌-◌, ◌%◌, ◌^◌, ◌≤◌, ◌<◌, ◌≡◌, arith}
use zenonia.Containers.{Item, plain, container, Items, no_items, item, size}
use zenonia.Containers.Queries.{get_free_slots, free_slots_in}

-- The room in a container and in those inside.
unfoldable mutual
  pub room : Item → ℕ
  room (plain t) = 0
  room (container t b total items) = (b.max_size - size items) + room_in items

  pub room_in : Items → ℕ
  room_in no_items = 0
  room_in (item i is) = room i + room_in is

-- No container has more items than its capacity, which is below 2 ^ 32.
unfoldable mutual
  pub IsRoomy : Item → Type 0
  IsRoomy (plain t) = Unit
  IsRoomy (container t b total items) =
      (size items ≤ b.max_size) × (b.max_size < 2 ^ 32) × AreRoomy items

  pub AreRoomy : Items → Type 0
  AreRoomy no_items = Unit
  AreRoomy (item i is) = IsRoomy i × AreRoomy is

mutual
  unfolding get_free_slots room IsRoomy

  free_slots_of : (i : Item) → IsRoomy i → get_free_slots i ≡ room i % 2 ^ 16
  free_slots_of (plain t) h = omega arith
  free_slots_of (container t b total items) h =
      omega (arith, h.0, h.1, free_slots_in-room items h.2)

  free_slots_in-room : (is : Items) → AreRoomy is → free_slots_in is ≡ room_in is % 2 ^ 16
  free_slots_in-room no_items h = omega arith
  free_slots_in-room (item i is) h = omega (arith, free_slots_of i h.0, free_slots_in-room is h.1)

-- While no container has more items than its capacity, `getFreeSlots` is the room in all of them, in
-- 16 bits.
pub get_free_slots-room : (i : Item) → IsRoomy i → get_free_slots i ≡ room i % 2 ^ 16
get_free_slots-room i h = free_slots_of i h
