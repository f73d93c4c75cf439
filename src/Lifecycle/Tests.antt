-- ===== src/Lifecycle/Tests.antt =====
-- A run of a task that is stopped, one whose end stop does not see, and the theorems there.
use hyperspot.Common.{◌≡◌, refl, subst, Bool, true, false, Option, none, some, List, [], ◌∷◌}
use hyperspot.Lifecycle
use hyperspot.Lifecycle.{
  Leads, same_state, then_step, OwnLeads, Action, step, new, is_live, is_free, start_core, stopped,
  stopping, start, stop, go_on, sleep_ends, task_goes_on, over, absent, working, waiting, cancelled,
  timeout, returned, StopReason,
}
use hyperspot.Lifecycle.Safety.{reached_lem, stop_returned}
use hyperspot.Lifecycle.Progress.{stop-Returns}

unfoldable run : List Action → Lifecycle.Lifecycle → Option Lifecycle.Lifecycle
run [] w = some w
run (a ∷ actions) w = elim (step a w) [ none ↦ none | some v ↦ run actions v ]

stepped :
    (actions : List Action) (o : Option Lifecycle.Lifecycle) (u : Lifecycle.Lifecycle)
    → elim o [ none ↦ none | some v ↦ run actions v ] ≡ some u
    → (v : Lifecycle.Lifecycle) × (o ≡ some v) × (run actions v ≡ some u)
stepped actions none u h = cc
stepped actions (some v) u h = (v, refl, h)

run-Leads :
    (actions : List Action) (w v u : Lifecycle.Lifecycle)
    → Leads w v
    → run actions v ≡ some u
    → Leads w u
unfolding run
run-Leads [] w v u path h = let same : v ≡ u = cc in subst (λ x. Leads w x) same path
run-Leads (a ∷ actions) w v u path h =
    let (x, e, rest) = stepped actions (step a v) u h in
    run-Leads actions w x u (then_step a path e) rest

abbrev stopped_task : Lifecycle.Lifecycle
stopped_task = record {
  status = stopped;
  handle = false;
  cancel = false;
  finished_flag = true;
  was_cancelled = true;
  task = over;
  aborted = false;
  ready = false;
  signals = 0;
  displaced = 0;
  caller = returned cancelled;
}

abbrev stopping_actions : List Action
stopping_actions =
    start false
    ∷ stop
    ∷ go_on
    ∷ go_on
    ∷ task_goes_on
    ∷ task_goes_on
    ∷ go_on
    ∷ go_on
    ∷ task_goes_on
    ∷ go_on
    ∷ go_on
    ∷ []

run-stopping : run stopping_actions new ≡ some stopped_task
unfolding run step start_core Lifecycle.request_stop Lifecycle.continue_stop Lifecycle.take_handle
    Lifecycle.finish_task Lifecycle.time_out
run-stopping = refl

abbrev restarted : Lifecycle.Lifecycle
restarted = record stopped_task {
  status = Lifecycle.starting;
  handle = true;
  cancel = true;
  finished_flag = false;
  was_cancelled = false;
  task = working;
  ready = true;
  caller = Lifecycle.idle;
}

reached_lem_example :
    (stopped_task.displaced ≡ 0)
    × ((ready : Bool) (w' : Lifecycle.Lifecycle)
        → step (start ready) stopped_task ≡ some w'
        → (stopped_task.status ≡ stopped)
          × (is_live stopped_task.task ≡ false)
          × (w'.displaced ≡ 0))
reached_lem_example =
    reached_lem stopped_task
      (run-Leads stopping_actions new new stopped_task same_state run-stopping)

stop_returned_example :
    (stopped_task.status ≡ stopped)
    × (is_live stopped_task.task ≡ false)
    × (w' : Lifecycle.Lifecycle) × (step (start true) stopped_task ≡ some w')
stop_returned_example =
    stop_returned stopped_task cancelled true
      (run-Leads stopping_actions new new stopped_task same_state run-stopping) refl

step-restarted : step (start true) stopped_task ≡ some restarted
unfolding step start_core
step-restarted = refl

-- A task that does not end, and a call that waits for it.
abbrev stuck : Lifecycle.Lifecycle
stuck = record restarted {
  status = Lifecycle.stopping;
  cancel = false;
  was_cancelled = true;
  ready = false;
  caller = waiting;
}

abbrev stuck_actions : List Action
stuck_actions = start false ∷ stop ∷ go_on ∷ go_on ∷ []

run-stuck : run stuck_actions new ≡ some stuck
unfolding run step start_core Lifecycle.request_stop Lifecycle.continue_stop Lifecycle.take_handle
    Lifecycle.finish_task Lifecycle.time_out
run-stuck = refl

stop-Returns_example :
    (u : Lifecycle.Lifecycle) × (r : StopReason) × OwnLeads stuck u × (u.caller ≡ returned r)
stop-Returns_example =
    stop-Returns stuck (run-Leads stuck_actions new new stuck same_state run-stuck) refl

-- The task ends and notifies between the call's look at `finished` and its registration: the call waits
-- for the timeout, and answers it, of a task that ended by itself.
abbrev missed_actions : List Action
missed_actions =
    start false
    ∷ stop
    ∷ go_on
    ∷ task_goes_on
    ∷ task_goes_on
    ∷ task_goes_on
    ∷ go_on
    ∷ sleep_ends
    ∷ go_on
    ∷ go_on
    ∷ go_on
    ∷ []

run-missed : run missed_actions new ≡ some (record stopped_task { caller = returned timeout })
unfolding run step start_core Lifecycle.request_stop Lifecycle.continue_stop Lifecycle.take_handle
    Lifecycle.finish_task Lifecycle.time_out
run-missed = refl
