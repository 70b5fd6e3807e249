-- ===== src/Sched/Core/Yield.antt =====
-- Which thread `sched_yield` of kernel/sched/sched.c chooses.
use operating_system_sctrach.Common.{
  ℕ, zero, suc, ◌<◌, ◌≡◌, refl, sym, ap, subst, List, [], ◌∷◌, Option, none, some, arith,
}
use operating_system_sctrach.Common.Memory.{write_ne}
use operating_system_sctrach.Sched.Types.{Sched}
use operating_system_sctrach.Sched.Queue.Links.{IsQueue}
use operating_system_sctrach.Sched.Queue.Pop.{pop_front-empty, pop_front-cons}
use operating_system_sctrach.Sched.Core.{pick, with_queue}

-- The first thread of the highest level below `n` that is not empty.
abbrev pub highest : ℕ → (ℕ → List ℕ) → Option ℕ
highest zero qs = none
highest (suc l) qs = elim (qs l) [ [] ↦ highest l qs | x ∷ xs ↦ some x ]

-- The run queues below `n` hold the lists.
abbrev pub AreQueues : ℕ → Sched → (ℕ → List ℕ) → Type 0
AreQueues n s qs = (l : ℕ) → l < n → IsQueue s.threads (s.ready_queues l) (qs l)

AreQueues-with_queue :
    (n : ℕ) (s : Sched) (qs : ℕ → List ℕ)
    → AreQueues (suc n) s qs
    → AreQueues n (with_queue s n (s.threads, s.ready_queues n)) qs
AreQueues-with_queue n s qs v l h =
    rw (write_ne s.ready_queues n (s.ready_queues n) l (λ e. omega arith)) (v l (omega arith))

-- The loop over the levels takes the first thread of the highest level that is not empty.
pub pick-highest :
    (n : ℕ) (s : Sched) (qs : ℕ → List ℕ) → AreQueues n s qs → (pick n s).1 ≡ highest n qs
unfolding pick
pick-highest zero s qs v = refl
pick-highest (suc l) s qs v = go (qs l) refl (
    pick-highest l (with_queue s l (s.threads, s.ready_queues l)) qs
      (AreQueues-with_queue l s qs v))
  where
    go :
        (xs : List ℕ)
        → xs ≡ qs l
        → (pick l (with_queue s l (s.threads, s.ready_queues l))).1 ≡ highest l qs
        → (pick (suc l) s).1 ≡ highest (suc l) qs
    go [] e rest =
        let v' = subst (IsQueue s.threads (s.ready_queues l)) (sym e) (v l (omega arith)) in
        let popped = pop_front-empty s.threads (s.ready_queues l) v' in
        let rest' =
          subst (λ r. (pick l (with_queue s l (r.0, r.1))).1 ≡ highest l qs) (sym popped) rest in
        rw (pick, ap (λ r. r.2) popped, highest, sym e) rest'
    go (x ∷ xs) e rest =
        let v' = subst (IsQueue s.threads (s.ready_queues l)) (sym e) (v l (omega arith)) in
        let popped = pop_front-cons s.threads (s.ready_queues l) x xs v' in
        rw (pick, popped.1, highest, sym e) refl
