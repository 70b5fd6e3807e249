-- ===== src/Sched/Mutex/Ownership.antt =====
-- Priority inheritance and the hand-over of the mutex of kernel/sched/sched.c.
use operating_system_sctrach.Common.{
  ℕ, zero, suc, ◌≤◌, ◌≡◌, refl, ◌∙◌, some, Option-cases, Bool-cases, inl, inr, ◌==◌, false, arith,
}
use operating_system_sctrach.Common.Memory.{write}
use operating_system_sctrach.Sched.Types.{Thread, Threads, ThreadQueue, Sched, blocked}
use operating_system_sctrach.Sched.Queue.{pop_front}
use operating_system_sctrach.Sched.Core.{
  set_thread, with_queue, pick, dispatch, current_runs, fall_back, sched_yield,
}
use operating_system_sctrach.Sched.Mutex.{Mutex, inherit, lock}

pop_front-priority :
    (ts : Threads) (q : ThreadQueue) (j : ℕ) → ((pop_front ts q).0 j).priority ≡ (ts j).priority
unfolding pop_front write
pop_front-priority ts q j = ground arith

pick-priority :
    (n : ℕ) (s : Sched) (j : ℕ) → ((pick n s).0.threads j).priority ≡ (s.threads j).priority
unfolding pick
pick-priority zero s j = refl
pick-priority (suc l) s j =
    let r = pop_front s.threads (s.ready_queues l) in
    let here = pop_front-priority s.threads (s.ready_queues l) j in
    let rest = pick-priority l (with_queue s l (r.0, r.1)) j in
    elim (Option-cases r.2) [ inl e ↦ rw (pick, e) (rest ∙ here) | inr (x, e) ↦ rw (pick, e) here ]

dispatch-priority :
    (s : Sched) (t j : ℕ) → ((dispatch s t).threads j).priority ≡ (s.threads j).priority
unfolding dispatch write
dispatch-priority s t j = ground arith

fall_back-priority :
    (s : Sched) (j : ℕ) → ((fall_back s).threads j).priority ≡ (s.threads j).priority
unfolding fall_back
fall_back-priority s j = elim (Bool-cases (current_runs s)) [
  | inl e ↦ rw (fall_back, e) refl
  | inr e ↦ elim (Option-cases s.idle_thread) [
    | inl k ↦ rw (fall_back, e, k) refl
    | inr (t, k) ↦ rw (fall_back, e, k) (dispatch-priority s t j)
  ]
]

-- Choosing the next thread changes no priority.
pub sched_yield-priority :
    (s : Sched) (j : ℕ) → ((sched_yield s).threads j).priority ≡ (s.threads j).priority
unfolding sched_yield
sched_yield-priority s j =
    let before = pick-priority 5 s j in
    elim (Option-cases (pick 5 s).1) [
      | inl e ↦ rw (sched_yield, e) (fall_back-priority (pick 5 s).0 j ∙ before)
      | inr (t, e) ↦ rw (sched_yield, e) (dispatch-priority (pick 5 s).0 t j ∙ before)
    ]

inherit-priority :
    (s : Sched) (o t : ℕ)
    → ((s.threads t).priority ≤ ((inherit s (some o) t).threads o).priority)
      × ((s.threads o).priority ≤ ((inherit s (some o) t).threads o).priority)
unfolding inherit write
inherit-priority s o t = ground arith

write-priority :
    (ts : Threads) (p a : ℕ) (v : Thread)
    → v.priority ≡ (ts p).priority
    → (write ts p v a).priority ≡ (ts a).priority
unfolding write
write-priority ts p a v e = ground arith

-- A running thread that asks for a mutex that is held leaves the holder with a priority at least
-- its own and no less than before; the mutex keeps its holder, and the thread is first among the
-- waiters.
pub lock-inherit :
    (s : Sched) (m : Mutex) (t o : ℕ)
    → s.current_thread ≡ some t
    → m.owner ≡ some o
    → 1 ≤ m.locked
    → let (s', m') = lock s m in
      ((s.threads t).priority ≤ (s'.threads o).priority)
      × ((s.threads o).priority ≤ (s'.threads o).priority)
      × (m'.owner ≡ some o)
      × (m'.waiters ≡ some t)
unfolding lock
lock-inherit s m t o current held taken =
    let h = inherit-priority s o t in
    let inherited = inherit s (some o) t in
    let waiting = record (inherited.threads t) {
      blocking_thread = some o;
      next = m.waiters;
      state = blocked;
    } in
    let same = sched_yield-priority (set_thread inherited t waiting) o in
    let kept = write-priority inherited.threads t o waiting refl in
    let busy : (m.locked == 0) ≡ false = ground arith in
    rw (lock, current, busy, held) (rw (same, kept) (h.0, h.1, refl, refl))
