-- ===== src/Lifecycle.antt =====
-- libs/modkit/src/lifecycle.rs: the controller of a background task. The calls of one controller do not
-- overlap here, and each runs to its end; the task and the watchers of ready signals run beside them,
-- one step at a time.
pub mod Invariant
pub mod Safety
pub mod Progress
mod Tests
use hyperspot.Common.{
  ℕ, zero, suc, ◌≡◌, Bool, true, false, not, ◌&&◌, ◌||◌, Option, none, some, if◌then◌else◌,
}

pub data Status : Type 0 where
  stopped starting running stopping : Status

pub data StopReason : Type 0 where
  finished cancelled timeout : StopReason

-- How far the spawned task is: in the module's code, after each of the two stores and the wake-up between
-- them, or over. A task that panics or is aborted is over too.
pub data Task : Type 0 where
  absent working flagged notified over : Task

-- Where the caller is: in no call, or in `stop`, before the check of `finished`, between the check and
-- the registration of the waiter, waiting, woken, after the select, in the await of the handle, before
-- the last store, and with its answer.
pub data Caller : Type 0 where
  idle asked checked waiting woken : Caller
  resolved joining closing returned : StopReason → Caller

-- `cancel` says that a token is kept, `handle` that a handle is; `ready` that the task still has its
-- signal, `signals` how many watchers have one to act on, and `displaced` how many live tasks a start
-- left behind.
pub record Lifecycle : Type 0 where
  pub status : Status
  pub handle : Bool
  pub cancel : Bool
  pub finished_flag : Bool
  pub was_cancelled : Bool
  pub task : Task
  pub aborted : Bool
  pub ready : Bool
  pub signals : ℕ
  pub displaced : ℕ
  pub caller : Caller

abbrev pub new : Lifecycle
new = record {
  status = stopped;
  handle = false;
  cancel = false;
  finished_flag = false;
  was_cancelled = false;
  task = absent;
  aborted = false;
  ready = false;
  signals = 0;
  displaced = 0;
  caller = idle;
}

abbrev pub is_live : Task → Bool
is_live absent = false
is_live over = false
is_live task = true

abbrev pub is_free : Caller → Bool
is_free idle = true
is_free (returned r) = true
is_free caller = false

abbrev pub is_stopped : Status → Bool
is_stopped stopped = true
is_stopped status = false

-- None is `AlreadyStarted`.
unfoldable pub start_core : Bool → Lifecycle → Option Lifecycle
start_core ready_mode w =
    if is_stopped w.status
    then some (record {
      status = if ready_mode then starting else running;
      handle = true;
      cancel = true;
      finished_flag = false;
      was_cancelled = false;
      task = working;
      aborted = false;
      ready = ready_mode;
      signals = w.signals;
      displaced = if is_live w.task then suc w.displaced else w.displaced;
      caller = idle;
    })
    else none

-- `stop` up to the wait.
unfoldable pub request_stop : Lifecycle → Lifecycle
request_stop w = if is_stopped w.status then record w { caller = returned finished } else record w {
  status = stopping;
  cancel = false;
  was_cancelled = w.was_cancelled || w.cancel;
  caller = asked;
}

abbrev pub reason_of : Lifecycle → StopReason
reason_of w = if w.was_cancelled then cancelled else finished

abbrev pub is_timeout : StopReason → Bool
is_timeout timeout = true
is_timeout r = false

-- The handle is taken, and the task aborted if the wait timed out before it was over.
unfoldable pub take_handle : StopReason → Lifecycle → Lifecycle
take_handle r w =
    if w.handle
    then record w {
      handle = false;
      aborted = w.aborted || (is_timeout r && is_live w.task);
      caller = joining r;
    }
    else record w { caller = closing r }

-- The call's next step; none where it waits for another.
unfoldable pub continue_stop : Lifecycle → Option Lifecycle
continue_stop w = elim w.caller [
  | asked ↦ some (record w { caller = if w.finished_flag then woken else checked })
  | checked ↦ some (record w { caller = waiting })
  | woken ↦ some (record w { caller = resolved (reason_of w) })
  | resolved r ↦ some (take_handle r w)
  | joining r ↦
      if is_live w.task then none else some (record w { finished_flag = true; caller = closing r })
  | closing r ↦ some (record w { status = stopped; caller = returned r })
  | _ ↦ none
]

-- The sleep of the select ends.
unfoldable pub time_out : Lifecycle → Option Lifecycle
time_out w = elim w.caller [
  | asked ↦ some (record w { caller = resolved timeout })
  | checked ↦ some (record w { caller = resolved timeout })
  | waiting ↦ some (record w { caller = resolved timeout })
  | woken ↦ some (record w { caller = resolved timeout })
  | _ ↦ none
]

-- `notify_waiters` reaches those that have registered.
abbrev pub wake : Caller → Caller
wake waiting = woken
wake caller = caller

-- The task's own next step, from the end of the module's code on.
unfoldable pub finish_task : Lifecycle → Option Lifecycle
finish_task w = elim w.task [
  | working ↦ some (record w { finished_flag = true; task = flagged; ready = false })
  | flagged ↦ some (record w { task = notified; caller = wake w.caller })
  | notified ↦ some (record w { status = stopped; task = over })
  | _ ↦ none
]

-- The module's code panics, or the runtime drops an aborted task.
unfoldable pub panic_task : Lifecycle → Option Lifecycle
panic_task w = elim w.task [ working ↦ some (record w { task = over; ready = false }) | _ ↦ none ]

unfoldable pub drop_task : Lifecycle → Option Lifecycle
drop_task w = if w.aborted then panic_task w else none

unfoldable pub send_ready : Lifecycle → Option Lifecycle
send_ready w = if w.ready then some (record w { ready = false; signals = suc w.signals }) else none

abbrev pub set_running : Status → Status
set_running starting = running
set_running status = status

-- The task that start_core spawns for the signal.
unfoldable pub watch_ready : Lifecycle → Option Lifecycle
watch_ready w = elim w.signals [
  | zero ↦ none
  | suc n ↦ some (record w { signals = n; status = set_running w.status })
]

pub data Action : Type 0 where
  start : Bool → Action
  stop go_on sleep_ends task_goes_on task_panics runtime_drops ready_sent watcher_runs : Action

unfoldable pub step : Action → Lifecycle → Option Lifecycle
step (start ready_mode) w = if is_free w.caller then start_core ready_mode w else none
step stop w = if is_free w.caller then some (request_stop w) else none
step go_on w = continue_stop w
step sleep_ends w = time_out w
step task_goes_on w = finish_task w
step task_panics w = panic_task w
step runtime_drops w = drop_task w
step ready_sent w = send_ready w
step watcher_runs w = watch_ready w

-- What the steps, in any order, lead to from another state.
pub data Leads : Lifecycle → Lifecycle → Type 0 where
  same_state : {w : Lifecycle} → Leads w w
  then_step : {w v u : Lifecycle} (a : Action) → Leads w v → step a v ≡ some u → Leads w u

-- The steps that need nothing of the module's code: those of the call, the timer and the runtime, and
-- of the task from the end of the module's code on.
abbrev pub is_own : Action → Lifecycle → Bool
is_own go_on w = true
is_own sleep_ends w = true
is_own runtime_drops w = true
is_own task_goes_on w = elim w.task [ working ↦ false | _ ↦ true ]
is_own a w = false

pub data OwnLeads : Lifecycle → Lifecycle → Type 0 where
  no_step : {w : Lifecycle} → OwnLeads w w
  own_step :
      {w v u : Lifecycle} (a : Action)
      → is_own a w ≡ true
      → step a w ≡ some v
      → OwnLeads v u
      → OwnLeads w u
