-- ===== src/Exec/Tests.antt =====
-- Runs of the interrupts and of the start of the processors of kernel/exec/kpcr.c.
use operating_system_sctrach.Common.{
  ℕ, ◌≡◌, refl, List, [], ◌∷◌, some, ◌+◌, ◌*◌, ◌<◌, arith, true, false,
}
use operating_system_sctrach.Common.Memory.{write}
use operating_system_sctrach.Sched.Types.{Sched}
use operating_system_sctrach.Sched.Tests.{blank}
use operating_system_sctrach.Sched.Queue.{push_back, pop_front}
use operating_system_sctrach.Sched.Dpc.{drain, drain_from, queue_init}
use operating_system_sctrach.Sched.Core.{
  sched_init, sched_yield, create_kthread, create_named_kthread, start_thread, free_slot, pick,
  dispatch, cleared, clamp_priority, new_thread, set_thread,
}
use operating_system_sctrach.Heap.Tests.{started_heap}
use operating_system_sctrach.Sched.Tick.{
  sched_tick, switches, preempt_current, preempt, watchdog_tick, watch_from, watch, wake,
  expired_level, expired_priority, periodic_boost,
}
use operating_system_sctrach.Exec.Kpcr.{Kpcr, Cpus, Local, Callback, ap_kernel_entry}
use operating_system_sctrach.Exec.Kpcr.Start.{booted, idling, ap_kernel_entry-idling}

abbrev yielded : Sched
yielded = sched_yield (sched_init blank 4096)

abbrev processor : Kpcr
processor = booted 0 0 1 2 3

abbrev on_first : Local
on_first = record {
  kpcr = some processor;
  nodes = λ a. record { callback = 0; context = 0; next = 0 };
  heap = started_heap;
}

-- A callback that moves the clock on by its context.
abbrev moves : ℕ → ℕ → Sched → Sched
moves c x s = record s { sched_ticks = s.sched_ticks + x }

abbrev calls : Callback Sched
calls c x l s = (l, moves c x s)

abbrev requests : List (ℕ × ℕ)
requests = (7, 100) ∷ (8, 20) ∷ []

-- The thread that runs has one tick left of its quantum, and another thread waits.
abbrev ending : Sched
ending =
    let s = (create_kthread yielded 5000 1).0 in
    set_thread s 0 (record (s.threads 0) { time_slice_left = 1 })

-- The tick takes the processor from it.
ending_run :
    ((sched_tick moves ending).1 ≡ true)
    × ((sched_tick moves ending).0.current_thread ≡ some 1)
    × ((sched_tick moves yielded).1 ≡ false)
unfolding sched_tick switches preempt_current preempt watchdog_tick watch_from watch wake drain
    create_kthread create_named_kthread start_thread free_slot push_back sched_yield pick pop_front
    dispatch sched_init cleared write expired_level expired_priority clamp_priority periodic_boost
    new_thread queue_init drain_from
ending_run = (refl, refl, refl)

abbrev two_cpus : Cpus
two_cpus = record { table = λ i. processor; online_cpu_count = 1 }

-- The second entry of the table, with the identifier 6, starts.
ap_kernel_entry-idling_example :
    let (s', gs) = ap_kernel_entry two_cpus (λ i. i * 6) 4 6 1 2 3 in
    (s'.table 1 ≡ idling 1 6 1 2 3) × (gs ≡ some 1) × (1 < s'.online_cpu_count)
ap_kernel_entry-idling_example =
    ap_kernel_entry-idling two_cpus (λ i. i * 6) 4 1 1 2 3 1 (omega arith) (omega arith)
      (omega arith) (λ m l h. absurd (omega arith))
