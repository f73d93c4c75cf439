-- ===== src/Lifecycle/Progress.antt =====
-- stop comes back, even if the module's code never does.
use hyperspot.Common.{ℕ, ◌≡◌, refl, sym, subst, Bool, true, false, ◌&&◌, ◌||◌, some, arith}
use hyperspot.Lifecycle
use hyperspot.Lifecycle.{
  Leads, OwnLeads, no_step, own_step, Action, step, new, is_live, is_free, is_own, Status, Task,
  Caller, StopReason, working, flagged, notified, over, absent, closing, joining, resolved,
  returned, go_on, sleep_ends, runtime_drops, task_goes_on, continue_stop, finish_task, panic_task,
  drop_task, take_handle, time_out, is_timeout,
}
use hyperspot.Lifecycle.Invariant.{wf, at}
use hyperspot.Lifecycle.Safety.{step-wf, reached-wf}

-- The call answers after some steps of its own.
abbrev pub Returns : Lifecycle.Lifecycle → Type 0
Returns w = (u : Lifecycle.Lifecycle) × (r : StopReason) × OwnLeads w u × (u.caller ≡ returned r)

prepend :
    (w v : Lifecycle.Lifecycle) (a : Action)
    → is_own a w ≡ true
    → step a w ≡ some v
    → Returns v
    → Returns w
prepend w v a own e (u, r, path, answer) = (u, r, own_step a own e path, answer)

closing-Returns :
    (s : Status) (h c f wc : Bool) (t : Task) (ab rd : Bool) (n d : ℕ) (r : StopReason)
    → Returns (at s h c f wc t ab rd n d (closing r))
unfolding step continue_stop
closing-Returns s h c f wc t ab rd n d r = (_, r, own_step go_on refl refl no_step, refl)

joined-Returns :
    (s : Status) (h c f wc : Bool) (t : Task) (ab rd : Bool) (n d : ℕ) (r : StopReason)
    → is_live t ≡ false
    → Returns (at s h c f wc t ab rd n d (joining r))
unfolding step continue_stop
joined-Returns s h c f wc t ab rd n d r dead =
    prepend _ _ go_on refl (rw dead refl) (closing-Returns s h c true wc t ab rd n d r)

joining-Returns :
    (s : Status) (h c f wc : Bool) (t : Task) (ab rd : Bool) (n d : ℕ) (r : StopReason)
    → wf (at s h c f wc t ab rd n d (joining r)) ≡ true
    → Returns (at s h c f wc t ab rd n d (joining r))
unfolding step finish_task drop_task panic_task
joining-Returns s h c f wc absent ab rd n d r g = joined-Returns s h c f wc absent ab rd n d r refl
joining-Returns s h c f wc over ab rd n d r g = joined-Returns s h c f wc over ab rd n d r refl
joining-Returns s h c f wc notified ab rd n d r g =
    prepend _ _ task_goes_on refl refl
      (joined-Returns Lifecycle.stopped h c f wc over ab rd n d r refl)
joining-Returns s h c f wc flagged ab rd n d r g = prepend _ _ task_goes_on refl refl (
    prepend _ _ task_goes_on refl refl
      (joined-Returns Lifecycle.stopped h c f wc over ab rd n d r refl))
joining-Returns s h c f wc working true rd n d r g =
    prepend _ _ runtime_drops refl refl (joined-Returns s h c f wc over true false n d r refl)
joining-Returns s h c f wc working false rd n d r g = let bad : false ≡ true = ground arith in cc

resolved-Returns :
    (s : Status) (h c f wc : Bool) (t : Task) (ab rd : Bool) (n d : ℕ) (r : StopReason)
    → wf (at s h c f wc t ab rd n d (resolved r)) ≡ true
    → Returns (at s h c f wc t ab rd n d (resolved r))
unfolding step continue_stop take_handle
resolved-Returns s false c f wc t ab rd n d r g =
    prepend _ _ go_on refl refl (closing-Returns s false c f wc t ab rd n d r)
resolved-Returns s true c f wc t ab rd n d r g =
    let w = at s true c f wc t ab rd n d (resolved r) in
    prepend w (take_handle r w) go_on refl refl (
      joining-Returns s false c f wc t (ab || (is_timeout r && is_live t)) rd n d r
        (step-wf go_on w (take_handle r w) refl g))

timed_out-Returns :
    (w v : Lifecycle.Lifecycle)
    → step sleep_ends w ≡ some v
    → wf w ≡ true
    → v.caller ≡ resolved Lifecycle.timeout
    → Returns w
timed_out-Returns w v e g same = prepend w v sleep_ends refl e (
    subst
      (λ k. Returns (
        at v.status v.handle v.cancel v.finished_flag v.was_cancelled v.task v.aborted v.ready
          v.signals v.displaced k))
      (sym same)
      (resolved-Returns _ _ _ _ _ _ _ _ _ _ Lifecycle.timeout (
        subst
          (λ k.
            wf (
              at v.status v.handle v.cancel v.finished_flag v.was_cancelled v.task v.aborted v.ready
                v.signals v.displaced k)
            ≡ true)
          same (step-wf sleep_ends w v e g))))

call-Returns :
    (s : Status) (h c f wc : Bool) (t : Task) (ab rd : Bool) (n d : ℕ) (k : Caller)
    → wf (at s h c f wc t ab rd n d k) ≡ true
    → is_free k ≡ false
    → Returns (at s h c f wc t ab rd n d k)
unfolding step time_out
call-Returns s h c f wc t ab rd n d Lifecycle.asked g busy = timed_out-Returns _ _ refl g refl
call-Returns s h c f wc t ab rd n d Lifecycle.checked g busy = timed_out-Returns _ _ refl g refl
call-Returns s h c f wc t ab rd n d Lifecycle.waiting g busy = timed_out-Returns _ _ refl g refl
call-Returns s h c f wc t ab rd n d Lifecycle.woken g busy = timed_out-Returns _ _ refl g refl
call-Returns s h c f wc t ab rd n d (resolved r) g busy =
    resolved-Returns s h c f wc t ab rd n d r g
call-Returns s h c f wc t ab rd n d (joining r) g busy = joining-Returns s h c f wc t ab rd n d r g
call-Returns s h c f wc t ab rd n d (closing r) g busy = closing-Returns s h c f wc t ab rd n d r
call-Returns s h c f wc t ab rd n d k g busy = cc

-- Wherever a call of stop stands in a state that a new controller reaches, it can answer by its own
-- steps, the end of the sleep, the runtime's dropping of an aborted task, and the steps of a task that
-- has left the module's code: nothing is needed of that code.
pub stop-Returns :
    (w : Lifecycle.Lifecycle)
    → Leads new w
    → is_free w.caller ≡ false
    → (u : Lifecycle.Lifecycle) × (r : StopReason) × OwnLeads w u × (u.caller ≡ returned r)
stop-Returns w path busy = call-Returns _ _ _ _ _ _ _ _ _ _ w.caller (reached-wf w path) busy
