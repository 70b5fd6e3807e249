-- ===== src/Sched/Queue/Links.antt =====
-- When a run queue of kernel/sched/sched.c holds a list of threads.
use operating_system_sctrach.Common.{ℕ, ◌≡◌, ◌≢◌, List, [], ◌∷◌, Option, none, some, All, arith}
use operating_system_sctrach.Common.Memory.{write, write_ne}
use operating_system_sctrach.Sched.Types.{Thread, Threads, ThreadQueue}

abbrev pub NotIn : ℕ → List ℕ → Type 0
NotIn x = All (λ y. y ≢ x)

abbrev pub Distinct : List ℕ → Type 0
Distinct [] = Unit {0}
Distinct (x ∷ xs) = NotIn x xs × Distinct xs

abbrev pub first : List ℕ → Option ℕ
first [] = none
first (x ∷ xs) = some x

abbrev pub final : List ℕ → Option ℕ
final [] = none
final (x ∷ []) = some x
final (x ∷ y ∷ ys) = final (y ∷ ys)

-- The `prev` and `next` links along a list, from the thread before it.
abbrev pub Linked : Threads → Option ℕ → List ℕ → Type 0
Linked ts before [] = Unit {0}
Linked ts before (x ∷ xs) =
    ((ts x).prev ≡ before) × ((ts x).next ≡ first xs) × Linked ts (some x) xs

-- The queue holds the threads of the list, in this order and each once.
pub record IsQueue (ts : Threads) (q : ThreadQueue) (xs : List ℕ) : Type 0 where
  pub head_is : q.head ≡ first xs
  pub tail_is : q.tail ≡ final xs
  pub links : Linked ts none xs
  pub distinct : Distinct xs

-- Links are read from the threads of the list alone.
pub Linked-agree :
    (ts ts' : Threads) (before : Option ℕ) (xs : List ℕ)
    → All (λ y. ts' y ≡ ts y) xs
    → Linked ts before xs
    → Linked ts' before xs
Linked-agree ts ts' before [] same l = tt
Linked-agree ts ts' before (x ∷ xs) same l =
    (rw same.0 l.0, rw same.0 l.1, Linked-agree ts ts' (some x) xs same.1 l.2)

pub agree-write :
    (ts : Threads) (t : ℕ) (v : Thread) (xs : List ℕ)
    → NotIn t xs
    → All (λ y. write ts t v y ≡ ts y) xs
agree-write ts t v [] out = tt
agree-write ts t v (x ∷ xs) out = (write_ne ts t v x out.0, agree-write ts t v xs out.1)

pub Linked-write :
    (ts : Threads) (t : ℕ) (v : Thread) (before : Option ℕ) (xs : List ℕ)
    → NotIn t xs
    → Linked ts before xs
    → Linked (write ts t v) before xs
Linked-write ts t v before xs out =
    Linked-agree ts (write ts t v) before xs (agree-write ts t v xs out)

pub final-ne : (x l : ℕ) (xs : List ℕ) → NotIn x xs → final xs ≡ some l → l ≢ x
final-ne x l [] out e = λ _. cc
final-ne x l (y ∷ []) out e = λ h. out.0 (ground arith)
final-ne x l (y ∷ z ∷ zs) out e = final-ne x l (z ∷ zs) out.1 e

-- The ends of a queue are those of its list.
pub IsQueue-ends :
    (ts : Threads) (q : ThreadQueue) (xs : List ℕ)
    → IsQueue ts q xs
    → q ≡ record { head = first xs; tail = final xs }
IsQueue-ends ts q xs v = λ i. record { head = v.head_is i; tail = v.tail_is i }
