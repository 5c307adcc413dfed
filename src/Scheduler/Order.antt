-- ===== src/Scheduler/Order.antt =====
-- The order in which src/scheduler.cpp sends its events.
use zenonia.Base.{
  ℕ, ◌≤◌, ◌≡◌, Option, none, some, List, [], ◌∷◌, ltb, leb, ◌==◌, if◌then◌else◌, arith, Bool-cases,
  inl, inr, All,
}
use zenonia.Scheduler.{
  Event, Scheduler, push, has_id, bump, add_event, stop_event, take_event, turn, Step, add, stop,
  tick, step,
}

abbrev pub NotBefore : ℕ → List Event → Type 0
NotBefore cycle es = All (λ f. cycle ≤ f.cycle) es

abbrev pub IsSorted : List Event → Type 0
IsSorted [] = Unit
IsSorted (e ∷ es) = NotBefore e.cycle es × IsSorted es

NotBefore-le : (a b : ℕ) (es : List Event) → a ≤ b → NotBefore b es → NotBefore a es
NotBefore-le a b [] h hs = tt
NotBefore-le a b (e ∷ es) h (he, hs) = (omega (arith, h, he), NotBefore-le a b es h hs)

NotBefore-push :
    (cycle : ℕ) (e : Event) (es : List Event)
    → cycle ≤ e.cycle
    → NotBefore cycle es
    → NotBefore cycle (push e es)
unfolding push
NotBefore-push cycle e [] h hs = (h, tt)
NotBefore-push cycle e (f ∷ fs) h (hf, hs) = elim (Bool-cases (ltb e.cycle f.cycle)) [
  | inl before ↦ rw before (h, (hf, hs))
  | inr behind ↦ rw behind (hf, NotBefore-push cycle e fs h hs)
]

push-IsSorted : (e : Event) (es : List Event) → IsSorted es → IsSorted (push e es)
unfolding push
push-IsSorted e [] h = (tt, tt)
push-IsSorted e (f ∷ fs) (hf, hs) = elim (Bool-cases (ltb e.cycle f.cycle)) [
  | inl before ↦ rw before (
    (ground (arith, before), NotBefore-le e.cycle f.cycle fs (ground (arith, before)) hf),
    (hf, hs),
  )
  | inr behind ↦
      rw behind (NotBefore-push f.cycle e fs (ground (arith, behind)) hf, push-IsSorted e fs hs)
]

-- What a turn sends comes before all that it leaves, and was due.
abbrev pub IsEarliest : ℕ → Option Event × Scheduler → Type 0
IsEarliest now (none, s) = Unit
IsEarliest now (some e, s) = (e.cycle ≤ now) × NotBefore e.cycle s.event_list

take_event-IsEarliest :
    (now : ℕ) (e : Event) (es : List Event) (s : Scheduler)
    → e.cycle ≤ now
    → IsSorted (e ∷ es)
    → IsEarliest now (take_event e es s) × IsSorted (take_event e es s).1.event_list
unfolding take_event
take_event-IsEarliest now e es s due (first, sorted) =
    elim (Bool-cases (has_id e.event_id s.event_ids)) [
      | inl active ↦ simp active ((due, first), sorted)
      | inr stopped ↦ simp stopped (tt, sorted)
    ]

turn-IsEarliest :
    (now : ℕ) (s : Scheduler)
    → IsSorted s.event_list
    → IsEarliest now (turn now s) × IsSorted (turn now s).1.event_list
unfolding turn
turn-IsEarliest now s h = by_top s.event_list h
  where
    by_top :
        (es : List Event)
        → IsSorted es
        → let r = elim es as (λ _. Option Event × Scheduler) [
          | [] ↦ (none, s)
          | f ∷ es ↦ if leb f.cycle now then take_event f es s else (none, s)
        ] in
          IsEarliest now r × IsSorted r.1.event_list
    by_top [] sorted = (tt, h)
    by_top (f ∷ es) sorted = elim (Bool-cases (leb f.cycle now)) [
      | inl due ↦ simp due (take_event-IsEarliest now f es s (ground (arith, due)) sorted)
      | inr early ↦ simp early (tt, h)
    ]

step-IsSorted :
    (a : Step) (s : Scheduler) → IsSorted s.event_list → IsSorted (step a s).1.event_list
unfolding step add_event stop_event
step-IsSorted (add cycle job) s h =
    let id = bump s.last_event_id in
    let e : Event = record { event_id = id; cycle = cycle; job = job } in
    elim (Bool-cases s.is_running) [
      | inl runs ↦ simp runs (push-IsSorted e s.event_list h)
      | inr ends ↦ simp ends h
    ]
step-IsSorted (stop id) s h = elim (Bool-cases (id == 0)) [
  | inl e ↦ simp e h
  | inr e ↦ elim (Bool-cases (has_id id s.event_ids)) [
    | inl active ↦ simp (e, active) h
    | inr stopped ↦ simp (e, stopped) h
  ]
]
step-IsSorted (tick now) s h = (turn-IsEarliest now s h).1

unfoldable pub run : List Step → Scheduler → Scheduler
run [] s = s
run (a ∷ steps) s = run steps (step a s).1

run-IsSorted :
    (steps : List Step) (s : Scheduler) → IsSorted s.event_list → IsSorted (run steps s).event_list
unfolding run
run-IsSorted [] s h = h
run-IsSorted (a ∷ steps) s h = run-IsSorted steps (step a s).1 (step-IsSorted a s h)

-- After any steps of a scheduler that starts without events, an event that a turn sends is due, and
-- no event that is left has an earlier time.
pub run-IsEarliest :
    (now : ℕ) (steps : List Step) (s : Scheduler)
    → s.event_list ≡ []
    → IsEarliest now (turn now (run steps s))
run-IsEarliest now steps s h =
    (turn-IsEarliest now (run steps s) (run-IsSorted steps s (rw h tt))).0
