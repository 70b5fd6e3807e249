-- ===== src/Sched/Types.antt =====
-- The types and constants of kernel/sched/sched.h, and the statics of sched.c.
use operating_system_sctrach.Common.{ℕ, List, Option, none, ◌==◌, if◌then◌else◌}

abbrev pub max_threads : ℕ
max_threads = 128

abbrev pub prio_idle : ℕ
prio_idle = 0

abbrev pub prio_low : ℕ
prio_low = 1

abbrev pub prio_normal : ℕ
prio_normal = 2

abbrev pub prio_high : ℕ
prio_high = 3

abbrev pub prio_realtime : ℕ
prio_realtime = 4

abbrev pub priority_levels : ℕ
priority_levels = 6

-- `RTOS_QUANTA`
abbrev pub quanta : ℕ → ℕ
quanta p =
    if p == 0
    then 200
    else if p == 1
    then 20
    else if p == 2
    then 10
    else if p == 3
    then 4
    else if p == 4
    then 1
    else 0

pub data ThreadState : Type 0 where
  embryo ready running blocked sleeping dpc_pending terminated : ThreadState

pub record Thread : Type 0 where
  pub tid : ℕ
  pub pid : ℕ
  pub state : ThreadState
  pub priority : ℕ
  pub base_priority : ℕ
  pub time_slice_left : ℕ
  pub quantum : ℕ
  pub name : List ℕ
  pub sleep_until : ℕ
  pub deadline_tick : ℕ
  pub deadline_missed : ℕ
  pub cpu_affinity : ℕ
  pub last_cpu : ℕ
  pub blocking_thread : Option ℕ
  pub total_cpu_ticks : ℕ
  pub last_run_tick : ℕ
  pub stack : List ℕ
  pub next : Option ℕ
  pub prev : Option ℕ

abbrev pub Threads : Type 0
Threads = ℕ → Thread

pub record ThreadQueue : Type 0 where
  pub head : Option ℕ
  pub tail : Option ℕ

-- A routine is a number, and 0 is NULL.
pub record DpcEntry : Type 0 where
  pub routine : ℕ
  pub context : ℕ
  pub urgent : ℕ

pub record DpcQueue : Type 0 where
  pub slots : ℕ → DpcEntry
  pub first : ℕ
  pub last : ℕ
  pub pending : ℕ

pub record Sched : Type 0 where
  pub threads : Threads
  pub thread_count : ℕ
  pub next_tid : ℕ
  pub sched_ticks : ℕ
  pub ready_queues : ℕ → ThreadQueue
  pub current_thread : Option ℕ
  pub sleep_queue : Option ℕ
  pub idle_thread : Option ℕ
  pub dpc : DpcQueue
  pub watchdog_miss_limit : ℕ
  pub watchdog_miss_streak : ℕ

abbrev pub empty_queue : ThreadQueue
empty_queue = record { head = none; tail = none }
