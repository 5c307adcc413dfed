-- ===== src/Scheduler/Silence.antt =====
-- Events of src/scheduler.cpp that were stopped or sent, and what is sent after that.
use zenonia.Base.{
  ℕ, ◌+◌, ◌≤◌, ◌<◌, ◌^◌, ◌≡◌, refl, ap, true, false, Option, none, some, List, [], ◌∷◌, length, leb,
  ◌==◌, if◌then◌else◌, arith, Bool-cases, inl, inr, ==-refl,
}
use zenonia.Scheduler.{
  Event, Scheduler, has_id, erase_id, stop_event, take_event, turn, Step, step, sent,
}
use zenonia.Scheduler.Silent.{has_id-erase_id, mentions, IsSilent, IsOther, step-IsSilent}

silent_lem :
    (id : ℕ) (steps : List Step) (s : Scheduler)
    → IsSilent id (length steps) s
    → mentions id (sent steps s) ≡ false
unfolding sent
silent_lem id [] s h = refl
silent_lem id (a ∷ steps) s h =
    let (other, h') = step-IsSilent id (length steps) a s h in
    silent (step a s).0 other (silent_lem id steps (step a s).1 h')
  where
    silent :
        (o : Option Event)
        → IsOther id o
        → mentions id (sent steps (step a s).1) ≡ false
        → mentions id (elim o as (λ _. List ℕ) [
          | none ↦ sent steps (step a s).1
          | some e ↦ e.event_id ∷ sent steps (step a s).1
        ])
          ≡ false
    silent none other ih = ih
    silent (some e) other ih = rw (other, ih)

erased_lem : (id : ℕ) (ids : List ℕ) → has_id id (erase_id id ids) ≡ false
erased_lem id ids = rw (has_id-erase_id id id ids, ==-refl id)

stopped-IsSilent :
    (id left : ℕ) (s : Scheduler)
    → (stop_event id s).0 ≡ true
    → id ≤ s.last_event_id
    → s.last_event_id + left < 2 ^ 32
    → IsSilent id left (stop_event id s).1
unfolding stop_event
stopped-IsSilent id left s stopped given room = elim (Bool-cases (id == 0)) [
  | inl zero_id ↦ let no : false ≡ true = simp zero_id at stopped in ground (arith, no)
  | inr some_id ↦ elim (Bool-cases (has_id id s.event_ids)) [
    | inl active ↦
        simp (some_id, active) (erased_lem id s.event_ids, ground (arith, some_id), given, room)
    | inr inactive ↦
        let no : false ≡ true = simp (some_id, inactive) at stopped in ground (arith, no)
  ]
]

sent_top :
    (e f : Event) (es : List Event) (left : ℕ) (s : Scheduler)
    → (take_event f es s).0 ≡ some e
    → 1 ≤ e.event_id
    → e.event_id ≤ s.last_event_id
    → s.last_event_id + left < 2 ^ 32
    → IsSilent e.event_id left (take_event f es s).1
unfolding take_event
sent_top e f es left s sends pos given room = elim (Bool-cases (has_id f.event_id s.event_ids)) [
  | inl active ↦
      let found : some f ≡ some e = simp active at sends in
      let same : f.event_id ≡ e.event_id =
        ap (λ o. elim o as (λ _. ℕ) [ none ↦ 0 | some x ↦ x.event_id ]) found in
      simp active (rw same (erased_lem e.event_id s.event_ids), pos, given, room)
  | inr stopped ↦ let no : none ≡ some e = simp stopped at sends in ground (arith, no)
]

sent-IsSilent :
    (now left : ℕ) (e : Event) (s : Scheduler)
    → (turn now s).0 ≡ some e
    → 1 ≤ e.event_id
    → e.event_id ≤ s.last_event_id
    → s.last_event_id + left < 2 ^ 32
    → IsSilent e.event_id left (turn now s).1
unfolding turn
sent-IsSilent now left e s = by_top s.event_list
  where
    by_top :
        (es : List Event)
        → let r = elim es as (λ _. Option Event × Scheduler) [
          | [] ↦ (none, s)
          | f ∷ es ↦ if leb f.cycle now then take_event f es s else (none, s)
        ] in
          r.0 ≡ some e
          → 1 ≤ e.event_id
          → e.event_id ≤ s.last_event_id
          → s.last_event_id + left < 2 ^ 32
          → IsSilent e.event_id left r.1
    by_top [] sends pos given room = ground (arith, sends)
    by_top (f ∷ es) sends pos given room = elim (Bool-cases (leb f.cycle now)) [
      | inl due ↦ simp due (sent_top e f es left s (simp due at sends) pos given room)
      | inr early ↦ let no : none ≡ some e = simp early at sends in ground (arith, no)
    ]

-- An event that is stopped while it is active is never sent, whatever steps follow, as long as the
-- 32-bit ids do not start again.
pub sent-stop_event :
    (id : ℕ) (steps : List Step) (s : Scheduler)
    → (stop_event id s).0 ≡ true
    → id ≤ s.last_event_id
    → s.last_event_id + length steps < 2 ^ 32
    → mentions id (sent steps (stop_event id s).1) ≡ false
sent-stop_event id steps s stopped given room =
    silent_lem id steps (stop_event id s).1
      (stopped-IsSilent id (length steps) s stopped given room)

-- An event that a turn sends is not sent again, whatever steps follow, as long as the 32-bit ids do
-- not start again.
pub sent-turn :
    (now : ℕ) (e : Event) (steps : List Step) (s : Scheduler)
    → (turn now s).0 ≡ some e
    → 1 ≤ e.event_id
    → e.event_id ≤ s.last_event_id
    → s.last_event_id + length steps < 2 ^ 32
    → mentions e.event_id (sent steps (turn now s).1) ≡ false
sent-turn now e steps s sends pos given room =
    silent_lem e.event_id steps (turn now s).1
      (sent-IsSilent now (length steps) e s sends pos given room)
