-- ===== src/Sched/Core.antt =====
-- Starting, creating, choosing and ending threads: kernel/sched/sched.c.
pub mod Yield
pub mod Create
use operating_system_sctrach.Common.{
  ℕ, zero, suc, ◌+◌, ◌-◌, ◌%◌, ◌^◌, List, [], ◌∷◌, Option, none, some, Bool, true, false, ltb, leb,
  ◌==◌, ◌||◌, ◌&&◌, if◌then◌else◌,
}
use operating_system_sctrach.Common.Memory.{write}
use operating_system_sctrach.Sched.Types.{
  Thread, ThreadState, Threads, ThreadQueue, Sched, DpcQueue, max_threads, prio_normal, prio_idle,
  prio_realtime, priority_levels, quanta, empty_queue, embryo, ready, running, blocked, sleeping,
  dpc_pending, terminated,
}
use operating_system_sctrach.Sched.Queue.{push_back, pop_front}
use operating_system_sctrach.Sched.Dpc.{queue_init}

abbrev pub set_thread : Sched → ℕ → Thread → Sched
set_thread s t v = record s { threads = write s.threads t v }

abbrev pub with_queue : Sched → ℕ → Threads × ThreadQueue → Sched
with_queue s l (ts, q) = record s { threads = ts; ready_queues = write s.ready_queues l q }

abbrev pub is_running : ThreadState → Bool
is_running running = true
is_running _ = false

abbrev pub is_terminated : ThreadState → Bool
is_terminated terminated = true
is_terminated _ = false

-- A slot that a new thread may take.
abbrev pub is_free : ThreadState → Bool
is_free terminated = true
is_free embryo = true
is_free _ = false

-- The loop of `sched_yield` over the levels below `n`, the highest first.
unfoldable pub pick : ℕ → Sched → Sched × Option ℕ
pick zero s = (s, none)
pick (suc l) s =
    let (ts, q, t) = pop_front s.threads (s.ready_queues l) in
    let rest = pick l (with_queue s l (ts, q)) in
    elim t [ some x ↦ (with_queue s l (ts, q), some x) | none ↦ rest ]

-- `switch_to_thread` keeps the scheduler's state.
unfoldable pub dispatch : Sched → ℕ → Sched
dispatch s t =
    record (set_thread s t
      (record (s.threads t) { state = running; last_run_tick = s.sched_ticks })) {
        current_thread = some t;
      }

-- Whether there is a current thread and it is running.
unfoldable pub current_runs : Sched → Bool
current_runs s = elim s.current_thread [ some t ↦ is_running (s.threads t).state | none ↦ false ]

-- `sched_yield` when every level was empty.
unfoldable pub fall_back : Sched → Sched
fall_back s = if current_runs s then s else elim s.idle_thread [ some t ↦ dispatch s t | none ↦ s ]

unfoldable pub sched_yield : Sched → Sched
sched_yield s =
    let (s', t) = pick (priority_levels - 1) s in
    elim t [ some x ↦ dispatch s' x | none ↦ fall_back s' ]

-- The first slot of the `n` from `i` on that a new thread may take.
unfoldable pub free_slot : Threads → ℕ → ℕ → Option ℕ
free_slot ts zero i = none
free_slot ts (suc n) i =
    let rest = free_slot ts n (i + 1) in if is_free (ts i).state then some i else rest

-- The name as it is copied: at most `n` bytes, up to the terminator.
unfoldable pub copy_name : ℕ → List ℕ → List ℕ
copy_name zero cs = []
copy_name (suc n) [] = []
copy_name (suc n) (c ∷ cs) = let rest = copy_name n cs in if c == 0 then [] else c ∷ rest

-- The words that `sched_create_named_kthread` leaves on the stack, from `rsp` upwards.
unfoldable pub initial_stack : ℕ → List ℕ
initial_stack entry = 0 ∷ 0 ∷ 0 ∷ 0 ∷ 0 ∷ 0 ∷ 514 ∷ entry ∷ []

unfoldable pub new_thread : ℕ → ℕ → ℕ → List ℕ → Thread
new_thread id entry priority name = record {
  tid = id;
  pid = 0;
  state = ready;
  priority = priority;
  base_priority = priority;
  time_slice_left = quanta priority;
  quantum = quanta priority;
  name = copy_name 31 name;
  sleep_until = 0;
  deadline_tick = 0;
  deadline_missed = 0;
  cpu_affinity = 0;
  last_cpu = 0;
  blocking_thread = none;
  total_cpu_ticks = 0;
  last_run_tick = 0;
  stack = initial_stack entry;
  next = none;
  prev = none;
}

unfoldable pub clamp_priority : ℕ → ℕ
clamp_priority p = if leb priority_levels p then prio_normal else p

-- The part of `sched_create_named_kthread` that fills slot `i`.
unfoldable pub start_thread : Sched → ℕ → ℕ → ℕ → List ℕ → Sched
start_thread s i entry p name =
    let s1 = record (set_thread s i (new_thread s.next_tid entry p name)) {
      next_tid = (s.next_tid + 1) % 2 ^ 32;
    } in
    let s2 = with_queue s1 p (push_back s1.threads (s1.ready_queues p) i) in
    record s2 { thread_count = (s2.thread_count + 1) % 2 ^ 32 }

unfoldable pub create_named_kthread : Sched → ℕ → ℕ → List ℕ → Sched × Option ℕ
create_named_kthread s entry priority name =
    let p = clamp_priority priority in
    if leb max_threads s.thread_count then (s, none) else elim (free_slot s.threads max_threads 0) [
      | some i ↦ (start_thread s i entry p name, some i)
      | none ↦ (s, none)
    ]

-- "kthread"
abbrev pub kthread_name : List ℕ
kthread_name = 107 ∷ 116 ∷ 104 ∷ 114 ∷ 101 ∷ 97 ∷ 100 ∷ []

-- "idle"
abbrev pub idle_name : List ℕ
idle_name = 105 ∷ 100 ∷ 108 ∷ 101 ∷ []

unfoldable pub create_kthread : Sched → ℕ → ℕ → Sched × Option ℕ
create_kthread s entry priority = create_named_kthread s entry priority kthread_name

-- `sched_init` before it creates the idle thread.
unfoldable pub cleared : Sched → Sched
cleared s = record s {
  ready_queues = λ l. if ltb l priority_levels then empty_queue else s.ready_queues l;
  threads = λ t.
      if ltb t max_threads
      then record (s.threads t) { state = terminated; tid = 0 }
      else s.threads t;
  thread_count = 0;
  current_thread = none;
  sleep_queue = none;
  sched_ticks = 0;
  dpc = queue_init s.dpc;
}

-- `idle_entry` is the address of `idle_thread_entry`.
unfoldable pub sched_init : Sched → ℕ → Sched
sched_init s idle_entry =
    let (s', t) = create_named_kthread (cleared s) idle_entry prio_idle idle_name in
    let made = record s' { idle_thread = t } in
    elim t [
      | some i ↦ record (set_thread made i (record (made.threads i) { state = running })) {
        current_thread = some i;
      }
      | none ↦ made
    ]

unfoldable pub sched_exit : Sched → Sched
sched_exit s = elim s.current_thread [
  | some t ↦ sched_yield (record (set_thread s t (record (s.threads t) { state = terminated })) {
    thread_count = (s.thread_count + 2 ^ 32 - 1) % 2 ^ 32;
  })
  | none ↦ s
]

unfoldable pub get_thread_by_index : Sched → ℕ → Option ℕ
get_thread_by_index s i =
    if leb max_threads i then none else if is_terminated (s.threads i).state then none else some i

unfoldable pub set_affinity : Sched → Option ℕ → ℕ → Sched
set_affinity s t mask = elim t [
  | some x ↦ set_thread s x (record (s.threads x) { cpu_affinity = mask })
  | none ↦ s
]

unfoldable pub boost : Sched → Option ℕ → ℕ → Sched
boost s t p = elim t [
  | some x ↦
      if ltb (s.threads x).priority p
      then set_thread s x (record (s.threads x) { priority = p; time_slice_left = quanta p })
      else s
  | none ↦ s
]

unfoldable pub set_deadline : Sched → Option ℕ → ℕ → Sched
set_deadline s t ms = elim t [
  | some x ↦ set_thread s x (record (s.threads x) {
    deadline_tick = (s.sched_ticks + ms) % 2 ^ 64;
    deadline_missed = 0;
    priority = prio_realtime;
    time_slice_left = quanta prio_realtime;
  })
  | none ↦ s
]
