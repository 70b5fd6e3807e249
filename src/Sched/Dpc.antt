-- ===== src/Sched/Dpc.antt =====
-- The queue of deferred procedure calls of kernel/sched/sched.c, a ring of 64 slots.
pub mod Fifo
use operating_system_sctrach.Common.{
  ℕ, zero, suc, ◌+◌, ◌-◌, ◌%◌, ◌^◌, List, [], ◌∷◌, Option, none, some, ltb, leb, ◌==◌,
  if◌then◌else◌, set, get_or,
}
use operating_system_sctrach.Common.Memory.{write}
use operating_system_sctrach.Sched.Types.{DpcEntry, DpcQueue, Sched}

abbrev pub dpc_queue_depth : ℕ
dpc_queue_depth = 64

unfoldable pub queue_init : DpcQueue → DpcQueue
queue_init d = record d { first = 0; last = 0; pending = 0 }

-- `dpc_queue`; a full ring drops the call.
unfoldable pub enqueue : DpcQueue → ℕ → ℕ → ℕ → DpcQueue
enqueue d routine context urgent = if leb dpc_queue_depth d.pending then d else record d {
  slots = write d.slots d.last (record { routine = routine; context = context; urgent = urgent });
  last = (d.last + 1) % dpc_queue_depth;
  pending = (d.pending + 1) % 2 ^ 32;
}

-- The part of `dpc_drain` that takes one entry; run only while `pending` is not 0.
unfoldable pub take_entry : DpcQueue → DpcEntry × DpcQueue
take_entry d =
    (d.slots d.first, record d { first = (d.first + 1) % dpc_queue_depth; pending = d.pending - 1 })

-- `dpc_drain` with `n` entries of its allowance of 8 left. `call` is what a routine does to the
-- scheduler; the list is the entries taken, in order.
module _ (call : ℕ → ℕ → Sched → Sched) where
  abbrev pub invoke : DpcEntry → Sched → Sched
  invoke e s = if e.routine == 0 then s else call e.routine e.context s

  unfoldable pub drain_from : ℕ → Sched → Sched × List DpcEntry
  drain_from zero s = (s, [])
  drain_from (suc n) s =
      let (e, d) = take_entry s.dpc in
      let (s', es) = drain_from n (invoke e (record s { dpc = d })) in
      if ltb 0 s.dpc.pending then (s', e ∷ es) else (s, [])

  unfoldable pub drain : Sched → Sched × List DpcEntry
  drain = drain_from 8
