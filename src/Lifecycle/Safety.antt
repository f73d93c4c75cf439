-- ===== src/Lifecycle/Safety.antt =====
-- One task at a time, and what is so when stop has answered.
use hyperspot.Common.{
  ◌≡◌, refl, subst, inl, inr, Bool, true, false, Option, none, some, Option-cases, if◌then◌else◌,
  arith,
}
use hyperspot.Lifecycle
use hyperspot.Lifecycle.{
  Leads, same_state, then_step, Action, step, new, is_live, is_free, is_stopped, start_core,
}
use hyperspot.Lifecycle.Invariant.{
  wf, continue_stop-wf, time_out-wf, finish_task-wf, panic_task-wf, start_core-wf, request_stop-wf,
  watch_ready-wf, send_ready-wf,
}

if-some :
    {A : Type 0} (b : Bool) (o : Option A) (a : A)
    → (if b then o else none) ≡ some a
    → (b ≡ true) × (o ≡ some a)
if-some true o a h = (refl, h)
if-some false o a h = cc

pub step-wf :
    (a : Action) (w w' : Lifecycle.Lifecycle) → step a w ≡ some w' → wf w ≡ true → wf w' ≡ true
unfolding step Lifecycle.drop_task
step-wf (Lifecycle.start r) w w' e g =
    let (free, started) = if-some (is_free w.caller) _ w' e in start_core-wf r w w' free started g
step-wf Lifecycle.stop w w' e g =
    let (free, found) = if-some (is_free w.caller) _ w' e in
    let same : Lifecycle.request_stop w ≡ w' = cc in
    subst (λ v. wf v ≡ true) same (request_stop-wf w free g)
step-wf Lifecycle.go_on w w' e g = continue_stop-wf _ _ _ _ _ _ _ _ _ _ w.caller w' e g
step-wf Lifecycle.sleep_ends w w' e g = time_out-wf _ _ _ _ _ _ _ _ _ _ w.caller w' e g
step-wf Lifecycle.task_goes_on w w' e g = finish_task-wf _ _ _ _ _ w.task _ _ _ _ _ w' e g
step-wf Lifecycle.task_panics w w' e g = panic_task-wf w w' e g
step-wf Lifecycle.runtime_drops w w' e g = panic_task-wf w w' (if-some w.aborted _ w' e).1 g
step-wf Lifecycle.ready_sent w w' e g = send_ready-wf _ _ _ _ _ _ _ w.ready _ _ _ w' e g
step-wf Lifecycle.watcher_runs w w' e g = watch_ready-wf _ _ _ _ _ _ _ _ w.signals _ _ w' e g

Leads-wf : (w v : Lifecycle.Lifecycle) → wf w ≡ true → Leads w v → wf v ≡ true
Leads-wf w v g same_state = g
Leads-wf w u g (then_step {v = v} a path e) = step-wf a v u e (Leads-wf w v g path)

pub reached-wf : (w : Lifecycle.Lifecycle) → Leads new w → wf w ≡ true
reached-wf w path = Leads-wf new w refl path

wf-live :
    (w : Lifecycle.Lifecycle) → wf w ≡ true → w.status ≡ Lifecycle.stopped → is_live w.task ≡ false
wf-live w g e = ground arith

wf-displaced : (w : Lifecycle.Lifecycle) → wf w ≡ true → w.displaced ≡ 0
wf-displaced w g = ground arith

wf-returned :
    (w : Lifecycle.Lifecycle) (r : Lifecycle.StopReason)
    → wf w ≡ true
    → w.caller ≡ Lifecycle.returned r
    → w.status ≡ Lifecycle.stopped
wf-returned w r g e = ground arith

is_stopped-stopped : (s : Lifecycle.Status) → is_stopped s ≡ true → s ≡ Lifecycle.stopped
is_stopped-stopped Lifecycle.stopped h = refl
is_stopped-stopped s h = cc

startable :
    (w : Lifecycle.Lifecycle) (ready : Bool)
    → is_free w.caller ≡ true
    → is_stopped w.status ≡ true
    → (w' : Lifecycle.Lifecycle) × (step (Lifecycle.start ready) w ≡ some w')
unfolding step start_core
startable w ready free status = elim (Option-cases (step (Lifecycle.start ready) w)) [
  | inl e ↦
      let gone : ◌≡◌ {A = Option Lifecycle.Lifecycle} (some _) none = rw (free, status) at e in cc
  | inr found ↦ found
]

-- In every state that a new controller reaches, whatever the calls one after another and however their
-- steps are mixed with those of the task and the watchers: no start has left a live task behind, and a
-- start that takes effect finds the status Stopped and no task live.
pub reached_lem :
    (w : Lifecycle.Lifecycle)
    → Leads new w
    → (w.displaced ≡ 0)
      × ((ready : Bool) (w' : Lifecycle.Lifecycle)
          → step (Lifecycle.start ready) w ≡ some w'
          → (w.status ≡ Lifecycle.stopped) × (is_live w.task ≡ false) × (w'.displaced ≡ 0))
unfolding step start_core
reached_lem w path =
    let g = reached-wf w path in
    (
      wf-displaced w g,
      λ ready w' e.
          let (free, started) = if-some (is_free w.caller) _ w' e in
          let status = is_stopped-stopped w.status (if-some (is_stopped w.status) _ w' started).0 in
          (status, wf-live w g status, wf-displaced w' (start_core-wf ready w w' free started g)),
    )

-- When stop has answered, however its steps were mixed with those of the task and the watchers: the
-- status is Stopped, no task is live, and the next start succeeds.
pub stop_returned :
    (w : Lifecycle.Lifecycle) (r : Lifecycle.StopReason) (ready : Bool)
    → Leads new w
    → w.caller ≡ Lifecycle.returned r
    → (w.status ≡ Lifecycle.stopped)
      × (is_live w.task ≡ false)
      × (w' : Lifecycle.Lifecycle) × (step (Lifecycle.start ready) w ≡ some w')
unfolding step start_core
stop_returned w r ready path e =
    let g = reached-wf w path in
    let status = wf-returned w r g e in
    let (w', started) = startable w ready (rw e refl) (rw status refl) in
    (status, wf-live w g status, w', started)
