-- ===== src/Sched/Ready/Reach.antt =====
-- The scheduler of kernel/sched/sched.c from its start on: runs of its operations.
use operating_system_sctrach.Common.{ℕ, List, Option}
use operating_system_sctrach.Sched.Types.{Sched}
use operating_system_sctrach.Sched.Core.{
  sched_yield, sched_exit, sched_init, create_named_kthread, set_affinity, boost, set_deadline,
}
use operating_system_sctrach.Sched.Tick.{preempt_current, watchdog_tick}
use operating_system_sctrach.Sched.Ready.{IsScheduled}
use operating_system_sctrach.Sched.Ready.Choose.{sched_yield-IsScheduled}
use operating_system_sctrach.Sched.Ready.Steps.{preempt_current-IsScheduled, sched_exit-IsScheduled}
use operating_system_sctrach.Sched.Ready.Fields.{
  watchdog_tick-IsScheduled, set_affinity-IsScheduled, set_deadline-IsScheduled, boost-IsScheduled,
}
use operating_system_sctrach.Sched.Ready.Create.{
  IsStarted, IsSchedulable, create_named_kthread-IsStarted, create_named_kthread-IsScheduled,
}
use operating_system_sctrach.Sched.Ready.Boot.{sched_init-IsStarted}

-- Start-up: `sched_init`, and threads that are created before the first choice.
pub data Boots : Sched → Type 0 where
  init : (s : Sched) (entry : ℕ) → Boots (sched_init s entry)
  create :
      (s : Sched) (entry priority : ℕ) (name : List ℕ)
      → IsSchedulable priority
      → Boots s
      → Boots (create_named_kthread s entry priority name).0

-- A run from the first choice on, in any order of the operations.
pub data Runs : Sched → Type 0 where
  choose : (s : Sched) → Boots s → Runs (sched_yield s)
  create :
      (s : Sched) (entry priority : ℕ) (name : List ℕ)
      → IsSchedulable priority
      → Runs s
      → Runs (create_named_kthread s entry priority name).0
  yield : (s : Sched) → Runs s → Runs (sched_yield s)
  exit : (s : Sched) → Runs s → Runs (sched_exit s)
  tick : (s : Sched) → Runs s → Runs (preempt_current s)
  watch : (s : Sched) → Runs s → Runs (watchdog_tick s)
  affinity : (s : Sched) (t : Option ℕ) (mask : ℕ) → Runs s → Runs (set_affinity s t mask)
  deadline : (s : Sched) (t : Option ℕ) (ms : ℕ) → Runs s → Runs (set_deadline s t ms)
  boosted : (s : Sched) (t : Option ℕ) (p : ℕ) → Runs s → Runs (boost s t p)

Boots-IsStarted : (s : Sched) → Boots s → IsStarted s
Boots-IsStarted s (init a entry) = sched_init-IsStarted a entry
Boots-IsStarted s (create a entry priority name h b) =
    create_named_kthread-IsStarted a entry priority name h (Boots-IsStarted a b)

-- From the first `sched_yield` after start-up on, after any run of yields, exits, ends of quanta,
-- creations of threads below the ISR level, watchdog ticks and calls of the affinity, deadline and boost
-- functions: each run queue is a doubly linked list, no thread waits in two queues, every thread that
-- waits is in use, and the current thread is running and waits nowhere. Sleeping, the mutex and the
-- periodic boost are not among these operations.
pub runs-IsScheduled : (s : Sched) → Runs s → IsScheduled s
runs-IsScheduled s (choose a b) =
    let v = Boots-IsStarted a b in sched_yield-IsScheduled a v.qs v.home v.idle v.ready v.idle_is
runs-IsScheduled s (create a entry priority name h r) =
    create_named_kthread-IsScheduled a entry priority name h (runs-IsScheduled a r)
runs-IsScheduled s (yield a r) =
    let v = runs-IsScheduled a r in sched_yield-IsScheduled a v.qs v.home v.idle v.ready v.idle_is
runs-IsScheduled s (exit a r) = sched_exit-IsScheduled a (runs-IsScheduled a r)
runs-IsScheduled s (tick a r) = preempt_current-IsScheduled a (runs-IsScheduled a r)
runs-IsScheduled s (watch a r) = watchdog_tick-IsScheduled a (runs-IsScheduled a r)
runs-IsScheduled s (affinity a t mask r) = set_affinity-IsScheduled a t mask (runs-IsScheduled a r)
runs-IsScheduled s (deadline a t ms r) = set_deadline-IsScheduled a t ms (runs-IsScheduled a r)
runs-IsScheduled s (boosted a t p r) = boost-IsScheduled a t p (runs-IsScheduled a r)
