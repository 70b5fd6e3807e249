-- ===== src/Sched/Queue.antt =====
-- The run queues of kernel/sched/sched.c: doubly linked lists through the threads.
pub mod Links
pub mod Push
pub mod Pop
use operating_system_sctrach.Common.{ℕ, Option, none, some}
use operating_system_sctrach.Common.Memory.{write}
use operating_system_sctrach.Sched.Types.{Thread, Threads, ThreadQueue}

-- `t->next = v` and `t->prev = v`.
abbrev pub set_next : Threads → ℕ → Option ℕ → Threads
set_next ts t v = write ts t (record (ts t) { next = v })

abbrev pub set_prev : Threads → ℕ → Option ℕ → Threads
set_prev ts t v = write ts t (record (ts t) { prev = v })

unfoldable pub push_back : Threads → ThreadQueue → ℕ → Threads × ThreadQueue
push_back ts q t =
    let linked = set_prev (set_next ts t none) t q.tail in
    elim q.tail [
      | some l ↦ (set_next linked l (some t), record q { tail = some t })
      | none ↦ (linked, record { head = some t; tail = some t })
    ]

unfoldable pub push_front : Threads → ThreadQueue → ℕ → Threads × ThreadQueue
push_front ts q t =
    let linked = set_next (set_prev ts t none) t q.head in
    elim q.head [
      | some h ↦ (set_prev linked h (some t), record q { head = some t })
      | none ↦ (linked, record { head = some t; tail = some t })
    ]

unfoldable pub pop_front : Threads → ThreadQueue → Threads × ThreadQueue × Option ℕ
pop_front ts q = elim q.head [
  | none ↦ (ts, q, none)
  | some t ↦ elim (ts t).next [
    | some n ↦
        (set_prev (set_next (set_prev ts n none) t none) t none, record q { head = some n }, some t)
    | none ↦ (set_prev (set_next ts t none) t none, record { head = none; tail = none }, some t)
  ]
]

-- The two halves of `queue_remove` before it clears the thread's own links.
unfoldable pub unlink_prev : Threads → ThreadQueue → ℕ → Threads × ThreadQueue
unlink_prev ts q t = elim (ts t).prev [
  | some p ↦ (set_next ts p (ts t).next, q)
  | none ↦ (ts, record q { head = (ts t).next })
]

unfoldable pub unlink_next : Threads → ThreadQueue → ℕ → Threads × ThreadQueue
unlink_next ts q t = elim (ts t).next [
  | some n ↦ (set_prev ts n (ts t).prev, q)
  | none ↦ (ts, record q { tail = (ts t).prev })
]

unfoldable pub remove : Threads → ThreadQueue → ℕ → Threads × ThreadQueue
remove ts q t =
    let (ts1, q1) = unlink_prev ts q t in
    let (ts2, q2) = unlink_next ts1 q1 t in (set_prev (set_next ts2 t none) t none, q2)
