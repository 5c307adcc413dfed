-- ===== src/Scheduler/Silent.antt =====
-- The steps of src/scheduler.cpp on an id that is not active.
use zenonia.Base.{
  ℕ, suc, ◌+◌, ◌≤◌, ◌<◌, ◌^◌, ◌≡◌, refl, sym, Bool, true, false, not, ◌&&◌, ◌||◌, Option, none,
  some, List, [], ◌∷◌, leb, ◌==◌, if◌then◌else◌, arith, Bool-cases, inl, inr,
}
use zenonia.Scheduler.{
  Event, Scheduler, has_id, insert_id, erase_id, bump, add_event, stop_event, take_event, turn,
  Step, add, stop, tick, step,
}

pub has_id-erase_id :
    (id e : ℕ) (ids : List ℕ) → has_id id (erase_id e ids) ≡ (not (e == id) && has_id id ids)
unfolding has_id erase_id
has_id-erase_id id e [] = ground arith
has_id-erase_id id e (i ∷ is) = ground (arith, has_id-erase_id id e is)

has_id-insert_id :
    (id e : ℕ) (ids : List ℕ) → has_id id (insert_id e ids) ≡ ((e == id) || has_id id ids)
unfolding insert_id has_id
has_id-insert_id id e ids = elim (Bool-cases (has_id e ids)) [
  | inl there ↦ rw there (elim (Bool-cases (e == id)) [
    | inl same ↦ let eq : e ≡ id = ground (arith, same) in rw (same, sym eq, there)
    | inr other ↦ rw other
  ])
  | inr absent ↦ rw absent
]

abbrev pub mentions : ℕ → List ℕ → Bool
mentions id [] = false
mentions id (i ∷ is) = i == id || mentions id is

-- An id that is not active and was given before, with steps left before the ids start again.
abbrev pub IsSilent : ℕ → ℕ → Scheduler → Type 0
IsSilent id left s =
    (has_id id s.event_ids ≡ false)
    × (1 ≤ id)
    × (id ≤ s.last_event_id)
    × (s.last_event_id + left < 2 ^ 32)

bump-lt : (last : ℕ) → last + 1 < 2 ^ 32 → bump last ≡ last + 1
unfolding bump
bump-lt last h = ground (arith, h)

-- What a step sends is not the event of the id.
abbrev pub IsOther : ℕ → Option Event → Type 0
IsOther id none = Unit
IsOther id (some e) = (e.event_id == id) ≡ false

take_event-IsSilent :
    (id left : ℕ) (e : Event) (es : List Event) (s : Scheduler)
    → IsSilent id (suc left) s
    → IsOther id (take_event e es s).0 × IsSilent id left (take_event e es s).1
unfolding take_event
take_event-IsSilent id left e es s (gone, pos, given, room) =
    let fewer : s.last_event_id + left < 2 ^ 32 = omega (arith, room) in
    elim (Bool-cases (has_id e.event_id s.event_ids)) [
      | inl active ↦ simp active (
        differs active,
        (rw (has_id-erase_id id e.event_id s.event_ids, gone) (ground arith), pos, given, fewer),
      )
      | inr stopped ↦ simp stopped (tt, (gone, pos, given, fewer))
    ]
  where
    differs : has_id e.event_id s.event_ids ≡ true → (e.event_id == id) ≡ false
    differs active = elim (Bool-cases (e.event_id == id)) [
      | inl same ↦
          let eq : e.event_id ≡ id = ground (arith, same) in
          let active' : has_id id s.event_ids ≡ true = rw eq at active in
          ground (arith, active', gone)
      | inr other ↦ other
    ]

add_event-IsSilent :
    (id left cycle job : ℕ) (s : Scheduler)
    → IsSilent id (suc left) s
    → let task : Event = record { event_id = 0; cycle = cycle; job = job } in
      IsSilent id left (add_event task s).1
unfolding add_event
add_event-IsSilent id left cycle job s (gone, pos, given, room) =
    let next : bump s.last_event_id ≡ s.last_event_id + 1 =
      bump-lt s.last_event_id (omega (arith, room)) in
    let other : (s.last_event_id + 1 == id) ≡ false = ground (arith, given) in
    elim (Bool-cases s.is_running) [
      | inl runs ↦
          simp (runs, next)
            (
              rw (has_id-insert_id id (s.last_event_id + 1) s.event_ids, other, gone) refl,
              pos,
              omega (arith, given),
              omega (arith, room),
            )
      | inr ends ↦ simp ends (gone, pos, given, omega (arith, room))
    ]

stop_event-IsSilent :
    (id left other : ℕ) (s : Scheduler)
    → IsSilent id (suc left) s
    → IsSilent id left (stop_event other s).1
unfolding stop_event
stop_event-IsSilent id left other s (gone, pos, given, room) =
    let fewer : s.last_event_id + left < 2 ^ 32 = omega (arith, room) in
    elim (Bool-cases (other == 0)) [
      | inl e ↦ simp e (gone, pos, given, fewer)
      | inr e ↦ elim (Bool-cases (has_id other s.event_ids)) [
        | inl active ↦
            simp (e, active)
              (rw (has_id-erase_id id other s.event_ids, gone) (ground arith), pos, given, fewer)
        | inr stopped ↦ simp (e, stopped) (gone, pos, given, fewer)
      ]
    ]

turn-IsSilent :
    (id left now : ℕ) (s : Scheduler)
    → IsSilent id (suc left) s
    → IsOther id (turn now s).0 × IsSilent id left (turn now s).1
unfolding turn
turn-IsSilent id left now s h = by_top s.event_list
  where
    fewer : IsSilent id left s
    fewer = (h.0, h.1, h.2, omega (arith, h.3))

    by_top :
        (es : List Event)
        → let r = elim es as (λ _. Option Event × Scheduler) [
          | [] ↦ (none, s)
          | e ∷ es ↦ if leb e.cycle now then take_event e es s else (none, s)
        ] in
          IsOther id r.0 × IsSilent id left r.1
    by_top [] = (tt, fewer)
    by_top (e ∷ es) = elim (Bool-cases (leb e.cycle now)) [
      | inl due ↦ simp due (take_event-IsSilent id left e es s h)
      | inr early ↦ simp early (tt, fewer)
    ]

pub step-IsSilent :
    (id left : ℕ) (a : Step) (s : Scheduler)
    → IsSilent id (suc left) s
    → IsOther id (step a s).0 × IsSilent id left (step a s).1
unfolding step
step-IsSilent id left (add cycle job) s h = (tt, add_event-IsSilent id left cycle job s h)
step-IsSilent id left (stop other) s h = (tt, stop_event-IsSilent id left other s h)
step-IsSilent id left (tick now) s h = turn-IsSilent id left now s h
