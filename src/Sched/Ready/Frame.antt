-- ===== src/Sched/Ready/Frame.antt =====
-- What the operations on one queue of kernel/sched/sched.c leave alone.
use operating_system_sctrach.Common.{ℕ, ◌≡◌, ◌≢◌, some, arith, Option-cases, inl, inr}
use operating_system_sctrach.Common.Memory.{write}
use operating_system_sctrach.Sched.Types.{Threads, ThreadQueue}
use operating_system_sctrach.Sched.Queue.{push_back, pop_front}

pub push_back-frame :
    (ts : Threads) (q : ThreadQueue) (t y : ℕ)
    → y ≢ t
    → q.tail ≢ some y
    → (push_back ts q t).0 y ≡ ts y
unfolding push_back write
push_back-frame ts q t y a b = elim (Option-cases q.tail) [
  | inl e ↦ rw (e) (ground arith)
  | inr (l, e) ↦ rw (e) (ground arith)
]

pub push_back-state :
    (ts : Threads) (q : ThreadQueue) (t y : ℕ) → ((push_back ts q t).0 y).state ≡ (ts y).state
unfolding push_back write
push_back-state ts q t y = elim (Option-cases q.tail) [
  | inl e ↦ rw (e) (ground arith)
  | inr (l, e) ↦ rw (e) (ground arith)
]

pub pop_front-frame :
    (ts : Threads) (q : ThreadQueue) (x y : ℕ)
    → q.head ≡ some x
    → y ≢ x
    → (ts x).next ≢ some y
    → (pop_front ts q).0 y ≡ ts y
unfolding pop_front write
pop_front-frame ts q x y h a b = elim (Option-cases (ts x).next) [
  | inl e ↦ rw (pop_front, h, e) (ground arith)
  | inr (l, e) ↦ rw (pop_front, h, e) (ground arith)
]

pub pop_front-state :
    (ts : Threads) (q : ThreadQueue) (x y : ℕ)
    → q.head ≡ some x
    → ((pop_front ts q).0 y).state ≡ (ts y).state
unfolding pop_front write
pop_front-state ts q x y h = elim (Option-cases (ts x).next) [
  | inl e ↦ rw (pop_front, h, e) (ground arith)
  | inr (l, e) ↦ rw (pop_front, h, e) (ground arith)
]
