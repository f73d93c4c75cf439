-- ===== src/Lifecycle/Invariant.antt =====
-- What holds of a controller in every state that its calls, its task and its watchers can reach.
use hyperspot.Common.{
  ℕ, zero, suc, ◌≡◌, subst, Bool, true, false, not, ◌&&◌, ◌||◌, some, nat_beq, arith,
}
use hyperspot.Lifecycle

abbrev implies : Bool → Bool → Bool
implies p q = not p || q

abbrev pub is_working : Lifecycle.Task → Bool
is_working Lifecycle.working = true
is_working t = false

-- The task has left the module's code and is not over.
abbrev is_ending : Lifecycle.Task → Bool
is_ending Lifecycle.flagged = true
is_ending Lifecycle.notified = true
is_ending t = false

abbrev is_joining : Lifecycle.Caller → Bool
is_joining (Lifecycle.joining r) = true
is_joining k = false

-- The call asked for the end and has not looked at the result yet.
abbrev is_waiting : Lifecycle.Caller → Bool
is_waiting Lifecycle.asked = true
is_waiting Lifecycle.checked = true
is_waiting Lifecycle.waiting = true
is_waiting Lifecycle.woken = true
is_waiting k = false

abbrev is_past_join : Lifecycle.Caller → Bool
is_past_join (Lifecycle.closing r) = true
is_past_join (Lifecycle.returned r) = true
is_past_join k = false

abbrev is_returned : Lifecycle.Caller → Bool
is_returned (Lifecycle.returned r) = true
is_returned k = false

abbrev is_cancelled : Lifecycle.StopReason → Bool
is_cancelled Lifecycle.cancelled = true
is_cancelled r = false

-- The reason that the call gives says that the task came to its end.
abbrev saw_end : Lifecycle.Caller → Bool
saw_end Lifecycle.woken = true
saw_end (Lifecycle.resolved r) = is_cancelled r
saw_end (Lifecycle.joining r) = is_cancelled r
saw_end (Lifecycle.closing r) = is_cancelled r
saw_end (Lifecycle.returned r) = is_cancelled r
saw_end k = false

abbrev is_finished : Lifecycle.StopReason → Bool
is_finished Lifecycle.finished = true
is_finished r = false

-- A call that waited does not answer `Finished`.
abbrev reason_fits : Lifecycle.Caller → Bool
reason_fits (Lifecycle.resolved r) = not (is_finished r)
reason_fits (Lifecycle.joining r) = not (is_finished r)
reason_fits (Lifecycle.closing r) = not (is_finished r)
reason_fits k = true

abbrev pub wf : Lifecycle.Lifecycle → Bool
wf w =
    implies (Lifecycle.is_live w.task) (not (Lifecycle.is_stopped w.status))
    && (implies (Lifecycle.is_live w.task) (w.handle || is_joining w.caller)
        && (implies (is_past_join w.caller) (not (Lifecycle.is_live w.task))
            && (implies (is_returned w.caller) (Lifecycle.is_stopped w.status)
                && (implies (Lifecycle.is_free w.caller) (Lifecycle.is_stopped w.status || w.cancel)
                    && (implies (is_waiting w.caller) w.was_cancelled
                        && (implies (is_ending w.task) w.finished_flag
                            && (implies (is_working w.task) (not w.finished_flag)
                                && (implies (saw_end w.caller) w.finished_flag
                                    && (implies (is_joining w.caller && is_working w.task) w.aborted
                                        && (reason_fits w.caller && nat_beq w.displaced 0))))))))))

abbrev pub at :
    Lifecycle.Status
    → Bool
    → Bool
    → Bool
    → Bool
    → Lifecycle.Task
    → Bool
    → Bool
    → ℕ
    → ℕ
    → Lifecycle.Caller
    → Lifecycle.Lifecycle
at s h c f wc t ab rd n d k = record {
  status = s;
  handle = h;
  cancel = c;
  finished_flag = f;
  was_cancelled = wc;
  task = t;
  aborted = ab;
  ready = rd;
  signals = n;
  displaced = d;
  caller = k;
}

pub continue_stop-wf :
    (s : Lifecycle.Status) (h c f wc : Bool) (t : Lifecycle.Task) (ab rd : Bool) (n d : ℕ)
    (k : Lifecycle.Caller) (w' : Lifecycle.Lifecycle)
    → Lifecycle.continue_stop (at s h c f wc t ab rd n d k) ≡ some w'
    → wf (at s h c f wc t ab rd n d k) ≡ true
    → wf w' ≡ true
unfolding Lifecycle.continue_stop Lifecycle.take_handle
continue_stop-wf s h c f wc t ab rd n d Lifecycle.asked w' e g = ground arith
continue_stop-wf s h c f wc t ab rd n d Lifecycle.checked w' e g = ground arith
continue_stop-wf s h c f wc t ab rd n d Lifecycle.woken w' e g = ground arith
continue_stop-wf s h c f wc t ab rd n d (Lifecycle.resolved r) w' e g = ground arith
continue_stop-wf s h c f wc t ab rd n d (Lifecycle.joining r) w' e g = ground arith
continue_stop-wf s h c f wc t ab rd n d (Lifecycle.closing r) w' e g = ground arith
continue_stop-wf s h c f wc t ab rd n d k w' e g = cc

pub time_out-wf :
    (s : Lifecycle.Status) (h c f wc : Bool) (t : Lifecycle.Task) (ab rd : Bool) (n d : ℕ)
    (k : Lifecycle.Caller) (w' : Lifecycle.Lifecycle)
    → Lifecycle.time_out (at s h c f wc t ab rd n d k) ≡ some w'
    → wf (at s h c f wc t ab rd n d k) ≡ true
    → wf w' ≡ true
unfolding Lifecycle.time_out
time_out-wf s h c f wc t ab rd n d Lifecycle.asked w' e g = ground arith
time_out-wf s h c f wc t ab rd n d Lifecycle.checked w' e g = ground arith
time_out-wf s h c f wc t ab rd n d Lifecycle.waiting w' e g = ground arith
time_out-wf s h c f wc t ab rd n d Lifecycle.woken w' e g = ground arith
time_out-wf s h c f wc t ab rd n d k w' e g = cc

pub finish_task-wf :
    (s : Lifecycle.Status) (h c f wc : Bool) (t : Lifecycle.Task) (ab rd : Bool) (n d : ℕ)
    (k : Lifecycle.Caller) (w' : Lifecycle.Lifecycle)
    → Lifecycle.finish_task (at s h c f wc t ab rd n d k) ≡ some w'
    → wf (at s h c f wc t ab rd n d k) ≡ true
    → wf w' ≡ true
unfolding Lifecycle.finish_task
finish_task-wf s h c f wc Lifecycle.working ab rd n d k w' e g = ground arith
finish_task-wf s h c f wc Lifecycle.flagged ab rd n d k w' e g = ground arith
finish_task-wf s h c f wc Lifecycle.notified ab rd n d k w' e g = ground arith
finish_task-wf s h c f wc t ab rd n d k w' e g = cc

pub panic_task-wf :
    (w w' : Lifecycle.Lifecycle) → Lifecycle.panic_task w ≡ some w' → wf w ≡ true → wf w' ≡ true
unfolding Lifecycle.panic_task
panic_task-wf w w' e g = ground arith

pub start_core-wf :
    (r : Bool) (w w' : Lifecycle.Lifecycle)
    → Lifecycle.is_free w.caller ≡ true
    → Lifecycle.start_core r w ≡ some w'
    → wf w ≡ true
    → wf w' ≡ true
unfolding Lifecycle.start_core
start_core-wf r w w' free e g = ground arith

pub request_stop-wf :
    (w : Lifecycle.Lifecycle)
    → Lifecycle.is_free w.caller ≡ true
    → wf w ≡ true
    → wf (Lifecycle.request_stop w) ≡ true
unfolding Lifecycle.request_stop
request_stop-wf w free g = ground arith

pub watch_ready-wf :
    (s : Lifecycle.Status) (h c f wc : Bool) (t : Lifecycle.Task) (ab rd : Bool) (n d : ℕ)
    (k : Lifecycle.Caller) (w' : Lifecycle.Lifecycle)
    → Lifecycle.watch_ready (at s h c f wc t ab rd n d k) ≡ some w'
    → wf (at s h c f wc t ab rd n d k) ≡ true
    → wf w' ≡ true
unfolding Lifecycle.watch_ready
watch_ready-wf s h c f wc t ab rd zero d k w' e g = ground arith
watch_ready-wf s h c f wc t ab rd (suc n) d k w' e g = ground arith

pub send_ready-wf :
    (s : Lifecycle.Status) (h c f wc : Bool) (t : Lifecycle.Task) (ab rd : Bool) (n d : ℕ)
    (k : Lifecycle.Caller) (w' : Lifecycle.Lifecycle)
    → Lifecycle.send_ready (at s h c f wc t ab rd n d k) ≡ some w'
    → wf (at s h c f wc t ab rd n d k) ≡ true
    → wf w' ≡ true
unfolding Lifecycle.send_ready
send_ready-wf s h c f wc t ab true n d k w' e g =
    let same : at s h c f wc t ab false (suc n) d k ≡ w' = cc in subst (λ v. wf v ≡ true) same g
send_ready-wf s h c f wc t ab false n d k w' e g = cc
