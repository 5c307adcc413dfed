-- ===== src/Tests/SchedulerTests.antt =====
-- src/scheduler.cpp and src/tasks.cpp on a few events.
use zenonia.Base.{ℕ, ◌≡◌, refl, true, false, List, [], ◌∷◌, none, some, arith}
use zenonia.Scheduler.{
  Event, Scheduler, Step, add, stop, tick, step, sent, turn, take_event, stop_event, add_event,
  push, has_id, insert_id, erase_id, bump, Dispatcher, dispatch, add_task, run_task, has_expired,
}
use zenonia.Scheduler.Silent.{mentions}
use zenonia.Scheduler.Silence.{sent-stop_event, sent-turn}
use zenonia.Scheduler.Order.{IsEarliest, run, run-IsEarliest}

abbrev idle : Scheduler
idle = record { is_running = true; last_event_id = 0; event_list = []; event_ids = [] }

abbrev event : ℕ → ℕ → ℕ → Event
event id cycle job = record { event_id = id; cycle = cycle; job = job }

abbrev adding : List Step
adding = add 300 7 ∷ add 100 8 ∷ add 200 9 ∷ []

abbrev busy : Scheduler
busy = record {
  is_running = true;
  last_event_id = 3;
  event_list = event 2 100 8 ∷ event 3 200 9 ∷ event 1 300 7 ∷ [];
  event_ids = 3 ∷ 2 ∷ 1 ∷ [];
}

added : run adding idle ≡ busy
unfolding run step add_event push has_id insert_id bump
added = refl

-- The second event is stopped in time, the first one too late.
abbrev later : List Step
later = stop 3 ∷ tick 150 ∷ tick 250 ∷ tick 300 ∷ stop 1 ∷ tick 400 ∷ []

sent_two : sent later busy ≡ 2 ∷ 1 ∷ []
unfolding sent step turn take_event stop_event has_id erase_id
sent_two = refl

stopped_three : (stop_event 3 busy).0 ≡ true
unfolding stop_event has_id
stopped_three = refl

sends_two : (turn 150 busy).0 ≡ some (event 2 100 8)
unfolding turn take_event has_id
sends_two = refl

sent-stop_event_example : mentions 3 (sent later (stop_event 3 busy).1) ≡ false
sent-stop_event_example = sent-stop_event 3 later busy stopped_three (omega arith) (omega arith)

sent-turn_example : mentions 2 (sent later (turn 150 busy).1) ≡ false
sent-turn_example =
    sent-turn 150 (event 2 100 8) later busy sends_two (omega arith) (omega arith) (omega arith)

run-IsEarliest_example : IsEarliest 150 (turn 150 (run adding idle))
run-IsEarliest_example = run-IsEarliest 150 adding idle refl

-- What the scheduler sends goes before the tasks that wait, and does not expire.
abbrev waiting : Dispatcher
waiting = record {
  dispatcher_is_running = true;
  task_list = record { expiration = 120; task_job = 5 } ∷ [];
  dispatcher_cycle = 0;
}

first_job : (run_task 150 (dispatch (event 2 100 8) waiting)).0 ≡ some 8
unfolding run_task dispatch add_task has_expired
first_job = refl

expired_job : (run_task 150 waiting).0 ≡ none
unfolding run_task has_expired
expired_job = refl
