-- ===== src/Sched/Queue/Pop.antt =====
-- Popping the front of a run queue of kernel/sched/sched.c.
use operating_system_sctrach.Common.{ℕ, ◌≡◌, refl, sym, List, [], ◌∷◌, none, some, arith, subst}
use operating_system_sctrach.Common.Memory.{write}
use operating_system_sctrach.Sched.Types.{Threads, ThreadQueue}
use operating_system_sctrach.Sched.Queue.{pop_front, set_next, set_prev}
use operating_system_sctrach.Sched.Queue.Links.{
  Distinct, final, Linked, IsQueue, IsQueue-ends, Linked-write,
}

-- `queue_pop_front` of an empty queue changes nothing.
pub pop_front-empty :
    (ts : Threads) (q : ThreadQueue) → IsQueue ts q [] → pop_front ts q ≡ (ts, q, none)
unfolding pop_front
pop_front-empty ts q v =
    subst (λ q'. pop_front ts q' ≡ (ts, q', none)) (sym (IsQueue-ends ts q [] v)) refl

abbrev Popped : Threads → ℕ → List ℕ → ThreadQueue → Type 0
Popped ts x xs q = IsQueue (pop_front ts q).0 (pop_front ts q).1 xs × ((pop_front ts q).2 ≡ some x)

pop_front-ends :
    (ts : Threads) (x : ℕ) (xs : List ℕ)
    → Linked ts none (x ∷ xs)
    → Distinct (x ∷ xs)
    → Popped ts x xs (record { head = some x; tail = final (x ∷ xs) })
unfolding pop_front write
pop_front-ends ts x [] k d =
    rw (pop_front, k.1) (record { head_is = refl; tail_is = refl; links = tt; distinct = tt }, refl)
pop_front-ends ts x (y ∷ ys) k d =
    let ts1 = set_prev ts y none in
    let ts2 = set_next ts1 x none in
    let rest =
      Linked-write ts2 x (record (ts2 x) { prev = none }) (some y) ys d.0.1
        (Linked-write ts1 x (record (ts1 x) { next = none }) (some y) ys d.0.1
          (Linked-write ts y (record (ts y) { prev = none }) (some y) ys d.1.0 k.2.2)) in
    let apart = d.0.0 in
    let behind = k.2.1 in
    rw (pop_front, k.1)
      (
        record {
          head_is = refl;
          tail_is = refl;
          links = (ground arith, ground arith, rest);
          distinct = d.1;
        },
        refl,
      )

-- `queue_pop_front` returns the first thread and keeps the others in order.
pub pop_front-cons :
    (ts : Threads) (q : ThreadQueue) (x : ℕ) (xs : List ℕ)
    → IsQueue ts q (x ∷ xs)
    → let (ts', q', t) = pop_front ts q in IsQueue ts' q' xs × (t ≡ some x)
pop_front-cons ts q x xs v =
    subst (Popped ts x xs) (sym (IsQueue-ends ts q (x ∷ xs) v))
      (pop_front-ends ts x xs v.links v.distinct)
