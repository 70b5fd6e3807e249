-- ===== src/Sched/Tests.antt =====
-- Runs of the scheduler of kernel/sched/sched.c.
use operating_system_sctrach.Common.{
  ℕ, ◌≡◌, ◌≤◌, ◌<◌, true, refl, List, [], ◌∷◌, none, some, arith, if◌then◌else◌, ◌==◌, inl, inr,
  Bool-cases,
}
use operating_system_sctrach.Common.Memory.{write}
use operating_system_sctrach.Common.Ring.{around}
use operating_system_sctrach.Sched.Types.{
  Thread, Threads, ThreadQueue, DpcQueue, Sched, empty_queue, ready, running, terminated,
}
use operating_system_sctrach.Sched.Queue.{push_back}
use operating_system_sctrach.Sched.Queue.Links.{IsQueue}
use operating_system_sctrach.Sched.Queue.Push.{push_back-append}
use operating_system_sctrach.Sched.Dpc.{queue_init, enqueue}
use operating_system_sctrach.Sched.Dpc.Fifo.{IsRing, waiting, enqueue-waiting}
use operating_system_sctrach.Sched.Core.{
  pick, free_slot, copy_name, initial_stack, new_thread, clamp_priority, start_thread,
  create_named_kthread, cleared, sched_init, get_thread_by_index, boost, set_deadline,
}
use operating_system_sctrach.Sched.Core.{is_free}
use operating_system_sctrach.Sched.Core.Create.{create_named_kthread-IsQueue}
use operating_system_sctrach.Sched.Core.Yield.{pick-highest}
use operating_system_sctrach.Sched.Tick.{wake_priority, expired_level, expired_priority}
use operating_system_sctrach.Sched.Core.{sched_yield}
use operating_system_sctrach.Sched.Tick.{preempt_current, sleep_insert}
use operating_system_sctrach.Sched.Tick.Sleep.{IsAsleep, sleep_insert-IsAsleep}
use operating_system_sctrach.Sched.Ready.{IsScheduled}
use operating_system_sctrach.Sched.Ready.Create.{IsSchedulable}
use operating_system_sctrach.Sched.Ready.Reach.{Boots, Runs, runs-IsScheduled}
use operating_system_sctrach.Sched.Mutex.{Mutex, lock}
use operating_system_sctrach.Sched.Mutex.Ownership.{lock-inherit}

abbrev unused : Thread
unused = record {
  tid = 0;
  pid = 0;
  state = terminated;
  priority = 0;
  base_priority = 0;
  time_slice_left = 0;
  quantum = 0;
  name = [];
  sleep_until = 0;
  deadline_tick = 0;
  deadline_missed = 0;
  cpu_affinity = 0;
  last_cpu = 0;
  blocking_thread = none;
  total_cpu_ticks = 0;
  last_run_tick = 0;
  stack = [];
  next = none;
  prev = none;
}

abbrev no_threads : Threads
no_threads i = unused

abbrev no_calls : DpcQueue
no_calls = record {
  slots = λ i. record { routine = 0; context = 0; urgent = 0 };
  first = 63;
  last = 63;
  pending = 0;
}

abbrev pub blank : Sched
blank = record {
  threads = no_threads;
  thread_count = 0;
  next_tid = 1;
  sched_ticks = 0;
  ready_queues = λ l. empty_queue;
  current_thread = none;
  sleep_queue = none;
  idle_thread = none;
  dpc = no_calls;
  watchdog_miss_limit = 10;
  watchdog_miss_streak = 0;
}

abbrev one : Threads × ThreadQueue
one = push_back no_threads empty_queue 3

one-IsQueue : IsQueue one.0 one.1 (3 ∷ [])
one-IsQueue =
    push_back-append no_threads empty_queue 3 []
      (record { head_is = refl; tail_is = refl; links = tt; distinct = tt }) tt

enqueue-waiting_run :
    IsRing (enqueue no_calls 7 8 1)
    × (waiting (enqueue no_calls 7 8 1) ≡ record { routine = 7; context = 8; urgent = 1 } ∷ [])
unfolding around
enqueue-waiting_run =
    enqueue-waiting no_calls 7 8 1
      (record { first_bound = omega arith; pending_bound = omega arith; last_is = refl })

-- Thread 3 is the only one that is ready, at level 2.
abbrev with_one : Sched
with_one = record blank {
  threads = one.0;
  ready_queues = λ l. if l == 2 then one.1 else empty_queue;
}

abbrev levels : ℕ → List ℕ
levels l = if l == 2 then 3 ∷ [] else []

with_one-AreQueues : (l : ℕ) → l ≤ 4 → IsQueue one.0 (with_one.ready_queues l) (levels l)
with_one-AreQueues l h = elim (Bool-cases (l == 2)) [
  | inl e ↦ rw (e) one-IsQueue
  | inr e ↦ rw (e) (record { head_is = refl; tail_is = refl; links = tt; distinct = tt })
]

pick-highest_run : (pick 5 with_one).1 ≡ some 3
pick-highest_run = pick-highest 5 with_one levels (λ l h. with_one-AreQueues l (omega arith))

-- Thread 1 runs at priority 4 and asks for what thread 0 holds at priority 1.
abbrev contended : Sched
contended = record blank {
  threads = λ t.
      if t == 0
      then record unused { tid = 1; state = ready; priority = 1 }
      else if t == 1
      then record unused { tid = 2; state = running; priority = 4 }
      else unused;
  current_thread = some 1;
}

abbrev held : Mutex
held = record { locked = 1; owner = some 0; waiters = none }

lock-inherit_run :
    (4 ≤ ((lock contended held).0.threads 0).priority)
    × (1 ≤ ((lock contended held).0.threads 0).priority)
    × ((lock contended held).1.owner ≡ some 0)
    × ((lock contended held).1.waiters ≡ some 1)
lock-inherit_run = lock-inherit contended held 1 0 refl refl (omega arith)

-- After initialisation the idle thread runs and still waits at level 0; a yield then chooses it.
init_run :
    ((sched_init blank 4096).current_thread ≡ some 0)
    × (((sched_init blank 4096).ready_queues 0).head ≡ some 0)
    × (((sched_init blank 4096).threads 0).stack ≡ 0 ∷ 0 ∷ 0 ∷ 0 ∷ 0 ∷ 0 ∷ 514 ∷ 4096 ∷ [])
unfolding sched_init cleared create_named_kthread free_slot start_thread clamp_priority new_thread
    copy_name initial_stack push_back queue_init write
init_run = (refl, refl, refl)

-- A quantum that ends moves a thread from level 0 to level 1, and one at level 2 nowhere.
expired_run :
    (expired_priority 0 ≡ 1)
    × (expired_priority 1 ≡ 2)
    × (expired_priority 2 ≡ 2)
    × (expired_level 5 ≡ 4)
unfolding expired_priority expired_level
expired_run = (refl, refl, refl, refl)

wake_run : (wake_priority 1 ≡ 3) × (wake_priority 4 ≡ 4)
unfolding wake_priority
wake_run = (refl, refl)

slots_run : (get_thread_by_index blank 3 ≡ none) × (get_thread_by_index blank 200 ≡ none)
unfolding get_thread_by_index
slots_run = (refl, refl)

deadline_run : ((boost (set_deadline blank (some 1) 50) (some 1) 3).threads 1).priority ≡ 4
unfolding boost set_deadline write
deadline_run = refl

create_named_kthread-IsQueue_run :
    (is_free (blank.threads 0).state ≡ true)
    × (0 < 128)
    × IsQueue
        (create_named_kthread blank 4096 9 []).0.threads
        ((create_named_kthread blank 4096 9 []).0.ready_queues (clamp_priority 9))
        (0 ∷ [])
unfolding create_named_kthread free_slot start_thread clamp_priority
create_named_kthread-IsQueue_run =
    create_named_kthread-IsQueue blank 4096 9 0 [] [] refl
      (record { head_is = refl; tail_is = refl; links = tt; distinct = tt }) tt

-- Start-up with one thread at HIGH, the first choice, and a tick.
abbrev started : Sched
started = (create_named_kthread (sched_init blank 4096) 8192 3 []).0

high-IsSchedulable : IsSchedulable 3
unfolding clamp_priority
high-IsSchedulable = omega arith

runs-IsScheduled_example : IsScheduled (preempt_current (sched_yield started))
runs-IsScheduled_example = runs-IsScheduled (preempt_current (sched_yield started)) (
    Runs.tick (sched_yield started) (
      Runs.choose started (
        Boots.create (sched_init blank 4096) 8192 3 [] high-IsSchedulable (Boots.init blank 4096))))

-- The threads 1 and 2 are asleep, and 3 goes to sleep until the tick at which 1 wakes up.
abbrev drowsy : Sched
drowsy = record blank {
  threads = λ y. record (blank.threads y) {
    next = if y == 1 then some 2 else none;
    sleep_until = if y == 2 then 20 else 10;
  };
  sleep_queue = some 1;
}

sleep_insert-IsAsleep_example : IsAsleep (sleep_insert drowsy 3) (1 ∷ 3 ∷ 2 ∷ [])
sleep_insert-IsAsleep_example =
    sleep_insert-IsAsleep drowsy 3 (1 ∷ 2 ∷ [])
      (record { head_is = refl; links = (refl, (refl, tt)); order = (omega arith, tt) })
      ((omega arith, tt), (tt, tt)) (omega arith, (omega arith, tt)) (omega arith)
