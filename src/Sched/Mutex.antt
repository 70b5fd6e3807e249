-- ===== src/Sched/Mutex.antt =====
-- The mutex with priority inheritance of kernel/sched/sched.c. A NULL mutex is not modelled: the
-- operations then do nothing.
pub mod Ownership
use operating_system_sctrach.Common.{
  ℕ, ◌+◌, Option, none, some, Bool, true, false, ltb, ◌==◌, if◌then◌else◌,
}
use operating_system_sctrach.Common.Memory.{write}
use operating_system_sctrach.Sched.Types.{Thread, Threads, Sched, blocked, ready}
use operating_system_sctrach.Sched.Queue.{push_front}
use operating_system_sctrach.Sched.Core.{set_thread, with_queue, sched_yield}

pub record Mutex : Type 0 where
  pub locked : ℕ
  pub owner : Option ℕ
  pub waiters : Option ℕ

unfoldable pub init : Mutex → Mutex
init m = record { locked = 0; owner = none; waiters = none }

-- Priority inheritance: the owner gets at least the priority of the thread that asks.
unfoldable pub inherit : Sched → Option ℕ → ℕ → Sched
inherit s owner t = elim owner [
  | some o ↦
      if ltb (s.threads o).priority (s.threads t).priority
      then set_thread s o (record (s.threads o) { priority = (s.threads t).priority })
      else s
  | none ↦ s
]

unfoldable pub lock : Sched → Mutex → Sched × Mutex
lock s m = elim s.current_thread [
  | none ↦ (s, m)
  | some t ↦
      let inherited = inherit s m.owner t in
      let waiting = record (inherited.threads t) {
        blocking_thread = m.owner;
        next = m.waiters;
        state = blocked;
      } in
      if m.locked == 0
      then (s, record m { locked = (s.threads t).tid; owner = some t })
      else (sched_yield (set_thread inherited t waiting), record m { waiters = some t })
]

-- `kmutex_unlock` called by the owner `t`.
unfoldable pub release : Sched → Mutex → ℕ → Sched × Mutex
release s m t =
    let restored =
      set_thread s t (record (s.threads t) { priority = (s.threads t).base_priority }) in
    elim m.waiters [
      | none ↦ (restored, record m { locked = 0; owner = none })
      | some w ↦
          let v = restored.threads w in
          let woken =
            set_thread restored w
              (record v { next = none; blocking_thread = none; state = ready }) in
          (
            with_queue woken v.priority
                (push_front woken.threads (woken.ready_queues v.priority) w),
            record { locked = v.tid; owner = some w; waiters = v.next },
          )
    ]

abbrev pub owned_by : Mutex → ℕ → Bool
owned_by m t = elim m.owner [ some o ↦ o == t | none ↦ false ]

unfoldable pub unlock : Sched → Mutex → Sched × Mutex
unlock s m = elim s.current_thread [
  | none ↦ (s, m)
  | some t ↦ if owned_by m t then release s m t else (s, m)
]
