-- ===== src/Sched/Tick.antt =====
-- Sleeping, the timer interrupt and the deadline watchdog: kernel/sched/sched.c.
pub mod Watchdog
pub mod Sleep
use operating_system_sctrach.Common.{
  ℕ, zero, suc, ◌+◌, ◌-◌, ◌%◌, ◌^◌, List, Option, none, some, Bool, true, false, ltb, leb, ◌==◌,
  ◌||◌, ◌&&◌, not, if◌then◌else◌,
}
use operating_system_sctrach.Common.Memory.{write}
use operating_system_sctrach.Sched.Types.{
  Thread, ThreadState, Threads, ThreadQueue, Sched, DpcEntry, max_threads, prio_normal, prio_high,
  prio_low, prio_realtime, quanta, ready, sleeping,
}
use operating_system_sctrach.Sched.Queue.{push_back, push_front, remove, set_next}
use operating_system_sctrach.Sched.Dpc.{drain}
use operating_system_sctrach.Sched.Core.{
  set_thread, with_queue, is_running, is_terminated, sched_yield,
}

-- The walk of `sched_sleep` along the sleep queue from `cur`, with fuel.
unfoldable pub sleep_after : ℕ → Threads → ℕ → ℕ → ℕ
sleep_after zero ts due cur = cur
sleep_after (suc n) ts due cur = elim (ts cur).next [
  | some x ↦
      let further = sleep_after n ts due x in if leb (ts x).sleep_until due then further else cur
  | none ↦ cur
]

-- `sched_sleep` once the current thread `t` is marked as sleeping.
unfoldable pub sleep_insert : Sched → ℕ → Sched
sleep_insert s t =
    let due = (s.threads t).sleep_until in
    elim s.sleep_queue [
      | none ↦ record s { threads = set_next s.threads t none; sleep_queue = some t }
      | some h ↦
          let cur = sleep_after max_threads s.threads due h in
          if ltb due (s.threads h).sleep_until
          then record s { threads = set_next s.threads t (some h); sleep_queue = some t }
          else record s {
            threads = set_next (set_next s.threads t (s.threads cur).next) cur (some t);
          }
    ]

unfoldable pub sched_sleep : Sched → ℕ → Sched
sched_sleep s ms = elim s.current_thread [
  | some t ↦ sched_yield (
      sleep_insert
        (set_thread s t
          (record (s.threads t) { state = sleeping; sleep_until = (s.sched_ticks + ms) % 2 ^ 64 }))
        t)
  | none ↦ s
]

-- The priority of a thread that wakes up.
unfoldable pub wake_priority : ℕ → ℕ
wake_priority base = if ltb base prio_high then prio_high else base

unfoldable pub wake_one : Sched → ℕ → Sched
wake_one s t =
    let p = wake_priority (s.threads t).base_priority in
    let woken = record (s.threads t) {
      next = none;
      state = ready;
      priority = p;
      time_slice_left = quanta p;
    } in
    let s' = record (set_thread s t woken) { sleep_queue = (s.threads t).next } in
    with_queue s' p (push_front s'.threads (s'.ready_queues p) t)

-- The loop of `sched_tick` over the sleep queue, with fuel.
unfoldable pub wake : ℕ → Sched → Sched
wake zero s = s
wake (suc n) s = elim s.sleep_queue [
  | none ↦ s
  | some t ↦
      let rest = wake n (wake_one s t) in
      if leb (s.threads t).sleep_until s.sched_ticks then rest else s
]

-- One thread of the loop of `rtos_watchdog_tick`.
unfoldable pub watch : Sched → ℕ → Sched
watch s i =
    let t = s.threads i in
    let streak = (s.watchdog_miss_streak + 1) % 2 ^ 32 in
    let late = record t { deadline_missed = 1 } in
    if is_terminated t.state
    then s
    else if ltb t.priority prio_realtime
    then s
    else if t.deadline_tick == 0
    then s
    else if ltb t.deadline_tick s.sched_ticks && t.deadline_missed == 0
    then (if leb s.watchdog_miss_limit streak
        then record (set_thread s i (record late { priority = prio_high })) {
          watchdog_miss_streak = 0;
        }
        else record (set_thread s i late) { watchdog_miss_streak = streak })
    else if leb s.sched_ticks t.deadline_tick
    then record (set_thread s i (record t { deadline_missed = 0 })) { watchdog_miss_streak = 0 }
    else s

unfoldable pub watch_from : ℕ → Sched → ℕ → Sched
watch_from zero s i = s
watch_from (suc n) s i = watch_from n (watch s i) (i + 1)

unfoldable pub watchdog_tick : Sched → Sched
watchdog_tick s = watch_from max_threads s 0

unfoldable pub watchdog_init : Sched → ℕ → Sched
watchdog_init s limit = record s { watchdog_miss_limit = limit; watchdog_miss_streak = 0 }

-- The level a thread goes to when its quantum is used up, and the quantum it gets there.
unfoldable pub expired_level : ℕ → ℕ
expired_level p =
    if leb prio_realtime p
    then prio_realtime
    else if leb prio_high p
    then prio_high
    else if ltb p (prio_high - 1)
    then p + 1
    else p

-- The priority field after that; a thread at or above HIGH keeps its own.
unfoldable pub expired_priority : ℕ → ℕ
expired_priority p = if leb prio_high p then p else expired_level p

-- What `sched_tick` does to the running thread.
unfoldable pub preempt : Sched → ℕ → Sched
preempt s t =
    let v = s.threads t in
    let left = v.time_slice_left - 1 in
    let counted = record v {
      total_cpu_ticks = (v.total_cpu_ticks + 1) % 2 ^ 64;
      time_slice_left = left;
    } in
    let l = expired_level v.priority in
    let requeued = set_thread s t (record counted {
      priority = expired_priority v.priority;
      time_slice_left = quanta l;
      state = ready;
    }) in
    if left == 0
    then sched_yield
        (with_queue requeued l (push_back requeued.threads (requeued.ready_queues l) t))
    else set_thread s t counted

unfoldable pub preempt_current : Sched → Sched
preempt_current s = elim s.current_thread [
  | some t ↦ if is_running (s.threads t).state then preempt s t else s
  | none ↦ s
]

-- One thread of the periodic boost.
unfoldable pub boost_starved : Sched → ℕ → ℕ → Sched
boost_starved s l t =
    let s1 = with_queue s l (remove s.threads (s.ready_queues l) t) in
    let base = (s.threads t).base_priority in
    let s2 =
      set_thread s1 t (record (s1.threads t) { priority = base; time_slice_left = quanta base }) in
    if ltb 500 ((s.sched_ticks + 2 ^ 64 - (s.threads t).last_run_tick) % 2 ^ 64)
    then with_queue s2 base (push_front s2.threads (s2.ready_queues base) t)
    else s

-- The walk of the periodic boost along one level, with fuel.
unfoldable pub boost_walk : ℕ → ℕ → Sched → Option ℕ → Sched
boost_walk zero l s t = s
boost_walk (suc n) l s none = s
boost_walk (suc n) l s (some t) = boost_walk n l (boost_starved s l t) (s.threads t).next

unfoldable pub boost_level : Sched → ℕ → Sched
boost_level s l = boost_walk max_threads l s (s.ready_queues l).head

unfoldable pub periodic_boost : Sched → Sched
periodic_boost s =
    if s.sched_ticks % 200 == 0 then boost_level (boost_level s prio_low) prio_normal else s

-- Whether two places hold the same thread.
abbrev pub same_thread : Option ℕ → Option ℕ → Bool
same_thread none none = true
same_thread none (some b) = false
same_thread (some a) none = false
same_thread (some a) (some b) = a == b

-- Whether the choice of a thread led from `s` to `s'` by `switch_to_thread`.
unfoldable pub switches : Sched → Sched → Bool
switches s s' = not (same_thread s.current_thread s'.current_thread)

-- `sched_tick` up to the point where the thread that called it goes on; `call` is what the routine of a
-- deferred call does. Where the tick switches to another thread, which the second result says, it stops
-- there: the thread that was running does the periodic boost when it runs again (`finish_tick`).
unfoldable pub sched_tick : (ℕ → ℕ → Sched → Sched) → Sched → Sched × Bool
sched_tick call s =
    let ticked = record s { sched_ticks = (s.sched_ticks + 1) % 2 ^ 64 } in
    let (drained, _) = drain call (wake max_threads ticked) in
    let watched = watchdog_tick drained in
    let chosen = preempt_current watched in
    let away = switches watched chosen in (if away then chosen else periodic_boost chosen, away)

-- The rest of `sched_tick`, once the thread that it switched away from runs again.
abbrev pub finish_tick : Sched → Sched
finish_tick = periodic_boost
