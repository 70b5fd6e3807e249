-- ===== src/Sched/Ready/Steps.antt =====
-- The operations of kernel/sched/sched.c on the current thread, and the order of the queues after
-- them.
use operating_system_sctrach.Common.{
  ℕ, ◌+◌, ◌≡◌, refl, sym, ap, subst, ◌∙◌, ◌<◌, [], ◌∷◌, ◌++◌, none, some, false, true, arith,
  if◌then◌else◌, inl, inr, Bool-cases, ◌==◌, ◌%◌, ◌^◌, ◌-◌,
}
use operating_system_sctrach.Common.Memory.{write, write_self}
use operating_system_sctrach.Sched.Types.{
  Thread, ThreadState, Sched, embryo, ready, running, blocked, sleeping, dpc_pending, terminated,
  quanta,
}
use operating_system_sctrach.Sched.Queue.{push_back}
use operating_system_sctrach.Sched.Core.{
  sched_yield, sched_exit, set_thread, with_queue, is_running, is_free,
}
use operating_system_sctrach.Sched.Tick.{preempt, preempt_current, expired_level, expired_priority}
use operating_system_sctrach.Sched.Ready.{IsScheduled}
use operating_system_sctrach.Sched.Ready.Move.{AreReady-push_back, AreReady-write}
use operating_system_sctrach.Sched.Ready.Choose.{sched_yield-IsScheduled}

pub is_running-is_free : (v : ThreadState) → is_running v ≡ true → is_free v ≡ false
is_running-is_free embryo h = absurd (ground arith)
is_running-is_free ready h = refl
is_running-is_free running h = refl
is_running-is_free blocked h = refl
is_running-is_free sleeping h = refl
is_running-is_free dpc_pending h = refl
is_running-is_free terminated h = absurd (ground arith)

-- The current thread may change while it runs.
set_thread-IsScheduled :
    (s : Sched) (v : IsScheduled s) (w : Thread)
    → is_running w.state ≡ true
    → IsScheduled (set_thread s v.thread w)
set_thread-IsScheduled s v w h = record {
  qs = v.qs;
  home = v.home;
  ready = AreReady-write s.threads s.ready_queues v.qs v.home v.thread w v.ready v.outside;
  idle = v.idle;
  idle_is = v.idle_is;
  thread = v.thread;
  current_is = v.current_is;
  runs = rw (write_self s.threads v.thread w) h;
  outside = v.outside;
}

-- The current thread goes to the end of a queue, and another is chosen.
requeue-IsScheduled :
    (s : Sched) (v : IsScheduled s) (w : Thread) (l : ℕ)
    → is_free w.state ≡ false
    → l < 5
    → let s' = set_thread s v.thread w in
      IsScheduled
        (sched_yield (with_queue s' l (push_back s'.threads (s'.ready_queues l) v.thread)))
requeue-IsScheduled s v w l used h =
    let s' = set_thread s v.thread w in
    sched_yield-IsScheduled (with_queue s' l (push_back s'.threads (s'.ready_queues l) v.thread))
      (write v.qs l (v.qs l ++ (v.thread ∷ []))) (write v.home v.thread (some l)) v.idle
      (AreReady-push_back s'.threads s'.ready_queues v.qs v.home l v.thread
        (AreReady-write s.threads s.ready_queues v.qs v.home v.thread w v.ready v.outside) h
        v.outside (rw (write_self s.threads v.thread w) used))
      v.idle_is

expired_level-lt : (p : ℕ) → expired_level p < 5
unfolding expired_level
expired_level-lt p = ground arith

preempt-IsScheduled : (s : Sched) (v : IsScheduled s) → IsScheduled (preempt s v.thread)
unfolding preempt
preempt-IsScheduled s v =
    let t = s.threads v.thread in
    let counted = record t {
      total_cpu_ticks = (t.total_cpu_ticks + 1) % 2 ^ 64;
      time_slice_left = t.time_slice_left - 1;
    } in
    let l = expired_level t.priority in
    elim (Bool-cases (t.time_slice_left - 1 == 0)) [
      | inl e ↦
          rw (preempt, e)
            (requeue-IsScheduled s v
              (record counted {
                priority = expired_priority t.priority;
                time_slice_left = quanta l;
                state = ready;
              })
              l refl (expired_level-lt t.priority))
      | inr e ↦ rw (preempt, e) (set_thread-IsScheduled s v counted v.runs)
    ]

-- What the operations on the current thread do when there is one.
preempt_current-running :
    (s : Sched) (t : ℕ)
    → s.current_thread ≡ some t
    → is_running (s.threads t).state ≡ true
    → preempt_current s ≡ preempt s t
unfolding preempt_current
preempt_current-running s t c h =
    ap
      (λ o. elim o [
        | some x ↦ if is_running (s.threads x).state then preempt s x else s
        | none ↦ s
      ])
      c
    ∙ ap (λ b. if b then preempt s t else s) h

-- `sched_exit` before it yields.
abbrev ended : Sched → ℕ → Sched
ended s t = record (set_thread s t (record (s.threads t) { state = terminated })) {
  thread_count = (s.thread_count + 2 ^ 32 - 1) % 2 ^ 32;
}

sched_exit-current :
    (s : Sched) (t : ℕ) → s.current_thread ≡ some t → sched_exit s ≡ sched_yield (ended s t)
unfolding sched_exit
sched_exit-current s t c = ap (λ o. elim o [ some x ↦ sched_yield (ended s x) | none ↦ s ]) c

pub preempt_current-IsScheduled : (s : Sched) → IsScheduled s → IsScheduled (preempt_current s)
preempt_current-IsScheduled s v =
    subst IsScheduled (sym (preempt_current-running s v.thread v.current_is v.runs))
      (preempt-IsScheduled s v)

pub sched_exit-IsScheduled : (s : Sched) → IsScheduled s → IsScheduled (sched_exit s)
sched_exit-IsScheduled s v = subst IsScheduled (sym (sched_exit-current s v.thread v.current_is)) (
    sched_yield-IsScheduled (ended s v.thread) v.qs v.home v.idle
      (AreReady-write s.threads s.ready_queues v.qs v.home v.thread
        (record (s.threads v.thread) { state = terminated }) v.ready v.outside)
      v.idle_is)
