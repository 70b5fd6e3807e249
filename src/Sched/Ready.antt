-- ===== src/Sched/Ready.antt =====
-- The run queues of kernel/sched/sched.c taken together, as lists of the threads that wait. The children
-- are about the operations: Frame and Move one queue, Choose `sched_yield`, Steps and Fields the other
-- operations on threads, Create and Boot creation and start-up, Reach whole runs.
pub mod Frame
pub mod Move
pub mod Choose
pub mod Steps
pub mod Fields
pub mod Create
pub mod Boot
pub mod Reach
use operating_system_sctrach.Common.{
  ℕ, ◌≡◌, ◌≢◌, refl, sym, ap, ◌∙◌, ◌<◌, List, [], ◌∷◌, Option, none, some, false, true, All, arith,
}
use operating_system_sctrach.Common.Memory.{write, write_ne}
use operating_system_sctrach.Sched.Types.{Threads, ThreadQueue, Sched}
use operating_system_sctrach.Sched.Queue.Links.{IsQueue, NotIn, first, final, Linked}
use operating_system_sctrach.Sched.Core.{is_free, is_running}

-- The lists that the six queues hold, and the level that a thread waits at. A thread has one level, so
-- it stands in one queue. Level 5 is for interrupts, and no thread waits there.
pub record AreReady (ts : Threads) (rq : ℕ → ThreadQueue) (qs : ℕ → List ℕ) (home : ℕ → Option ℕ)
    : Type 0 where
  pub queues : (l : ℕ) → l < 6 → IsQueue ts (rq l) (qs l)
  pub homes : (l : ℕ) → l < 6 → All (λ x. home x ≡ some l) (qs l)
  pub taken : (x l : ℕ) → home x ≡ some l → is_free (ts x).state ≡ false
  pub isr : qs 5 ≡ []

-- Besides, there is an idle thread, and the current thread runs and waits nowhere.
pub record IsScheduled (s : Sched) : Type 0 where
  pub qs : ℕ → List ℕ
  pub home : ℕ → Option ℕ
  pub ready : AreReady s.threads s.ready_queues qs home
  pub idle : ℕ
  pub idle_is : s.idle_thread ≡ some idle
  pub thread : ℕ
  pub current_is : s.current_thread ≡ some thread
  pub runs : is_running (s.threads thread).state ≡ true
  pub outside : home thread ≡ none

pub NotIn-home :
    (home : ℕ → Option ℕ) (l t : ℕ) (xs : List ℕ)
    → All (λ x. home x ≡ some l) xs
    → home t ≢ some l
    → NotIn t xs
NotIn-home home l t [] h ne = tt
NotIn-home home l t (x ∷ xs) h ne =
    ((λ e. ne (ap home (sym e) ∙ h.0)), NotIn-home home l t xs h.1 ne)

pub homes-write :
    (home : ℕ → Option ℕ) (l t : ℕ) (v : Option ℕ) (xs : List ℕ)
    → NotIn t xs
    → All (λ x. home x ≡ some l) xs
    → All (λ x. write home t v x ≡ some l) xs
homes-write home l t v [] out h = tt
homes-write home l t v (x ∷ xs) out h =
    (write_ne home t v x out.0 ∙ h.0, homes-write home l t v xs out.1 h.1)

pub first-home :
    (home : ℕ → Option ℕ) (l x : ℕ) (xs : List ℕ)
    → All (λ y. home y ≡ some l) xs
    → first xs ≡ some x
    → home x ≡ some l
first-home home l x [] h e = absurd (ground arith)
first-home home l x (y ∷ ys) h e = ground arith

pub final-home :
    (home : ℕ → Option ℕ) (l x : ℕ) (xs : List ℕ)
    → All (λ y. home y ≡ some l) xs
    → final xs ≡ some x
    → home x ≡ some l
final-home home l x [] h e = absurd (ground arith)
final-home home l x (y ∷ []) h e = ground arith
final-home home l x (y ∷ z ∷ zs) h e = final-home home l x (z ∷ zs) h.1 e

-- Two levels have no thread in common.
pub home-ne :
    (home : ℕ → Option ℕ) (l m x y : ℕ) → home x ≡ some l → home y ≡ some m → m ≢ l → y ≢ x
home-ne home l m x y hx hy ne e = absurd (ground arith)

-- Links are read from the links of the threads of the list alone.
pub Linked-same :
    (ts ts' : Threads) (before : Option ℕ) (xs : List ℕ)
    → All (λ y. ((ts' y).next ≡ (ts y).next) × ((ts' y).prev ≡ (ts y).prev)) xs
    → Linked ts before xs
    → Linked ts' before xs
Linked-same ts ts' before [] same l = tt
Linked-same ts ts' before (x ∷ xs) same l =
    (same.0.1 ∙ l.0, same.0.0 ∙ l.1, Linked-same ts ts' (some x) xs same.1 l.2)

pub IsQueue-same :
    (ts ts' : Threads) (q : ThreadQueue) (xs : List ℕ)
    → All (λ y. ((ts' y).next ≡ (ts y).next) × ((ts' y).prev ≡ (ts y).prev)) xs
    → IsQueue ts q xs
    → IsQueue ts' q xs
IsQueue-same ts ts' q xs same v = record {
  head_is = v.head_is;
  tail_is = v.tail_is;
  links = Linked-same ts ts' none xs same v.links;
  distinct = v.distinct;
}
