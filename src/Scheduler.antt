-- ===== src/Scheduler.antt =====
-- `Scheduler` of src/scheduler.cpp and `Dispatcher` of src/tasks.cpp. Each critical section of their
-- threads is one step; a job is a number.
pub mod Silence
pub mod Silent
pub mod Order
use zenonia.Base.{
  ℕ, zero, suc, ◌+◌, ◌-◌, ◌%◌, ◌^◌, Bool, true, false, not, ◌&&◌, ◌||◌, Option, none, some, List,
  [], ◌∷◌, ◌++◌, ltb, leb, ◌==◌, if◌then◌else◌,
}

pub record Event : Type 0 where
  pub event_id : ℕ
  pub cycle : ℕ
  pub job : ℕ

-- The queue in the order of its cycles: of events of the same cycle the first one added is the top.
pub record Scheduler : Type 0 where
  pub is_running : Bool
  pub last_event_id : ℕ
  pub event_list : List Event
  pub event_ids : List ℕ

-- `eventList.push`. The queue of the code leaves open which of several events of one cycle comes first; here it is the
-- one that came first.
unfoldable pub push : Event → List Event → List Event
push e [] = e ∷ []
push e (f ∷ fs) = if ltb e.cycle f.cycle then e ∷ f ∷ fs else f ∷ push e fs

unfoldable pub has_id : ℕ → List ℕ → Bool
has_id id [] = false
has_id id (i ∷ is) = i == id || has_id id is

unfoldable pub insert_id : ℕ → List ℕ → List ℕ
insert_id id ids = if has_id id ids then ids else id ∷ ids

unfoldable pub erase_id : ℕ → List ℕ → List ℕ
erase_id id [] = []
erase_id id (i ∷ is) = let rest = erase_id id is in if i == id then rest else i ∷ rest

-- `if (++lastEventId == 0) lastEventId = 1`
unfoldable pub bump : ℕ → ℕ
bump last = let next = (last + 1) % 2 ^ 32 in if next == 0 then 1 else next

-- `addEvent`, the answer first.
unfoldable pub add_event : Event → Scheduler → ℕ × Scheduler
add_event task s =
    let last = if task.event_id == 0 then bump s.last_event_id else s.last_event_id in
    let id = if task.event_id == 0 then last else task.event_id in
    if s.is_running
    then (
      id,
      record s {
        last_event_id = last;
        event_list = push (record task { event_id = id }) s.event_list;
        event_ids = insert_id id s.event_ids;
      },
    )
    else (0, s)

unfoldable pub stop_event : ℕ → Scheduler → Bool × Scheduler
stop_event id s =
    if id == 0
    then (false, s)
    else if has_id id s.event_ids
    then (true, record s { event_ids = erase_id id s.event_ids })
    else (false, s)

unfoldable pub shutdown : Scheduler → Scheduler
shutdown s = record s { is_running = false; event_list = []; event_ids = [] }

-- A turn of the loop of `threadMain` that takes an event: nothing is sent if it was stopped.
unfoldable pub take_event : Event → List Event → Scheduler → Option Event × Scheduler
take_event e es s =
    if has_id e.event_id s.event_ids
    then (some e, record s { event_list = es; event_ids = erase_id e.event_id s.event_ids })
    else (none, record s { event_list = es })

-- A turn of the loop at a time: the wait times out if the top is due.
unfoldable pub turn : ℕ → Scheduler → Option Event × Scheduler
turn now s = elim s.event_list [
  | [] ↦ (none, s)
  | e ∷ es ↦ if leb e.cycle now then take_event e es s else (none, s)
]

-- The steps of a running scheduler, in the order in which they get the lock. New events have no id.
pub data Step : Type 0 where
  add : ℕ → ℕ → Step
  stop : ℕ → Step
  tick : ℕ → Step

unfoldable pub step : Step → Scheduler → Option Event × Scheduler
step (add cycle job) s =
    let task : Event = record { event_id = 0; cycle = cycle; job = job } in
    (none, (add_event task s).1)
step (stop id) s = (none, (stop_event id s).1)
step (tick now) s = turn now s

-- The ids of the events that a run sends to the dispatcher.
unfoldable pub sent : List Step → Scheduler → List ℕ
sent [] s = []
sent (a ∷ steps) s =
    let (o, s') = step a s in
    let rest = sent steps s' in elim o [ none ↦ rest | some e ↦ e.event_id ∷ rest ]

-- A task of the dispatcher: expiration 0 is `SYSTEM_TIME_ZERO`.
pub record Task : Type 0 where
  pub expiration : ℕ
  pub task_job : ℕ

pub record Dispatcher : Type 0 where
  pub dispatcher_is_running : Bool
  pub task_list : List Task
  pub dispatcher_cycle : ℕ

-- `addTask`
unfoldable pub add_task : Task → Bool → Dispatcher → Dispatcher
add_task task push_front d =
    if d.dispatcher_is_running
    then record d {
      task_list = if push_front then task ∷ d.task_list else d.task_list ++ (task ∷ []);
    }
    else d

unfoldable pub has_expired : ℕ → Task → Bool
has_expired now task = not (task.expiration == 0) && ltb task.expiration now

-- A turn of the loop of the dispatcher: the job that it runs.
unfoldable pub run_task : ℕ → Dispatcher → Option ℕ × Dispatcher
run_task now d = elim d.task_list [
  | [] ↦ (none, d)
  | task ∷ tasks ↦ if has_expired now task then (none, record d { task_list = tasks }) else (
    some task.task_job,
    record d { task_list = tasks; dispatcher_cycle = (d.dispatcher_cycle + 1) % 2 ^ 64 },
  )
]

-- `setDontExpire` and the call of `addTask` that follow a timeout.
unfoldable pub dispatch : Event → Dispatcher → Dispatcher
dispatch e d = add_task (record { expiration = 0; task_job = e.job }) true d
