-- ===== src/Sched/Ready/Choose.antt =====
-- What `sched_yield` of kernel/sched/sched.c leaves, whichever thread it chooses.
use operating_system_sctrach.Common.{
  ℕ, zero, suc, ◌≡◌, refl, sym, ap, subst, ◌∙◌, ◌<◌, List, [], ◌∷◌, Option, none, some, false, true,
  arith, ◌⊎◌, inl, inr, Bool-cases, fun_ext, ◌==◌,
}
use operating_system_sctrach.Common.Memory.{write, write_self, write-each}
use operating_system_sctrach.Sched.Types.{Threads, ThreadQueue, Sched, running}
use operating_system_sctrach.Sched.Queue.{pop_front}
use operating_system_sctrach.Sched.Queue.Links.{IsQueue}
use operating_system_sctrach.Sched.Queue.Pop.{pop_front-empty, pop_front-cons}
use operating_system_sctrach.Sched.Core.{
  pick, with_queue, dispatch, current_runs, fall_back, sched_yield, is_running,
}
use operating_system_sctrach.Sched.Ready.{AreReady, IsScheduled}
use operating_system_sctrach.Sched.Ready.Move.{AreReady-pop_front, AreReady-write}

List-cases : (xs : List ℕ) → (xs ≡ []) ⊎ ((y : ℕ) × (ys : List ℕ) × (xs ≡ y ∷ ys))
List-cases [] = inl refl
List-cases (y ∷ ys) = inr (y, ys, refl)

write-same : (rq : ℕ → ThreadQueue) (l : ℕ) → write rq l (rq l) ≡ rq
write-same rq l = fun_ext (λ m. write-each (λ k q. q ≡ rq k) rq l (rq l) m refl (λ _. refl))

with_queue-same : (s : Sched) (l : ℕ) → with_queue s l (s.threads, s.ready_queues l) ≡ s
with_queue-same s l = λ i. record s { ready_queues = write-same s.ready_queues l i }

-- What popping the front of level `l` leaves.
abbrev pub popped : Sched → ℕ → Sched
popped s l = let (ts, q, _) = pop_front s.threads (s.ready_queues l) in with_queue s l (ts, q)

-- The loop took the first thread of a level.
pub record Picked (n : ℕ) (s : Sched) (qs : ℕ → List ℕ) : Type 0 where
  pub level : ℕ
  pub thread : ℕ
  pub rest : List ℕ
  pub below : level < n
  pub was : qs level ≡ thread ∷ rest
  pub result : pick n s ≡ (popped s level, some thread)

pick-cases :
    (n : ℕ) (s : Sched) (qs : ℕ → List ℕ)
    → ((l : ℕ) → l < n → IsQueue s.threads (s.ready_queues l) (qs l))
    → (((l : ℕ) → l < n → qs l ≡ []) × (pick n s ≡ (s, none))) ⊎ Picked n s qs
unfolding pick
pick-cases zero s qs v = inl ((λ l h. absurd (omega arith)), refl)
pick-cases (suc n) s qs v = elim (List-cases (qs n)) [
  | inr (x, xs, e) ↦
      let front =
        pop_front-cons s.threads (s.ready_queues n) x xs
          (subst (IsQueue s.threads (s.ready_queues n)) e (v n (omega arith))) in
      inr (record {
        level = n;
        thread = x;
        rest = xs;
        below = omega arith;
        was = e;
        result = rw (pick, front.1) refl;
      })
  | inl e ↦
      let none_left =
        pop_front-empty s.threads (s.ready_queues n)
          (subst (IsQueue s.threads (s.ready_queues n)) e (v n (omega arith))) in
      let skip : pick (suc n) s ≡ pick n s =
        rw (pick, ap (λ r. r.2) none_left)
          (ap (λ r. pick n (with_queue s n (r.0, r.1))) none_left
            ∙ ap (pick n) (with_queue-same s n)) in
      elim (pick-cases n s qs (λ l h. v l (omega arith))) [
        | inl (empty, r) ↦ inl (
          (λ l h. elim (Bool-cases (l == n)) [
            | inl k ↦ let same : l ≡ n = ground arith in subst (λ m. qs m ≡ []) (sym same) e
            | inr k ↦ empty l (ground arith)
          ]),
          skip ∙ r,
        )
        | inr p ↦ inr (record {
          level = p.level;
          thread = p.thread;
          rest = p.rest;
          below = omega (arith, p.below);
          was = p.was;
          result = skip ∙ p.result;
        })
      ]
]

dispatch-IsScheduled :
    (s : Sched) (qs : ℕ → List ℕ) (home : ℕ → Option ℕ) (t idle : ℕ)
    → AreReady s.threads s.ready_queues qs home
    → s.idle_thread ≡ some idle
    → home t ≡ none
    → IsScheduled (dispatch s t)
unfolding dispatch
dispatch-IsScheduled s qs home t idle r e out =
    let now = record (s.threads t) { state = running; last_run_tick = s.sched_ticks } in
    record {
      qs = qs;
      home = home;
      ready = AreReady-write s.threads s.ready_queues qs home t now r out;
      idle = idle;
      idle_is = e;
      thread = t;
      current_is = refl;
      runs = rw (write_self s.threads t now) refl;
      outside = out;
    }

-- When every queue is empty, no thread waits.
AreReady-empty :
    (ts : Threads) (rq : ℕ → ThreadQueue) (qs : ℕ → List ℕ) (home : ℕ → Option ℕ)
    → AreReady ts rq qs home
    → ((l : ℕ) → l < 5 → qs l ≡ [])
    → AreReady ts rq qs (λ _. none)
AreReady-empty ts rq qs home r empty =
    let all : (l : ℕ) → l < 6 → qs l ≡ [] = λ l h. elim (Bool-cases (l == 5)) [
      | inl k ↦ let same : l ≡ 5 = ground arith in subst (λ m. qs m ≡ []) (sym same) r.isr
      | inr k ↦ empty l (ground arith)
    ] in
    record {
      queues = r.queues;
      homes = λ l h. rw (all l h) tt;
      taken = λ x l k. absurd (ground arith);
      isr = r.isr;
    }

-- The current thread that the test found running.
current_runs-thread :
    (s : Sched)
    → current_runs s ≡ true
    → (t : ℕ) × (s.current_thread ≡ some t) × (is_running (s.threads t).state ≡ true)
unfolding current_runs
current_runs-thread s = go s.current_thread refl
  where
    go :
        (o : Option ℕ)
        → s.current_thread ≡ o
        → (elim o [ some t ↦ is_running (s.threads t).state | none ↦ false ]) ≡ true
        → (t : ℕ) × (s.current_thread ≡ some t) × (is_running (s.threads t).state ≡ true)
    go none e h = absurd (ground arith)
    go (some t) e h = (t, e, h)

fall_back-IsScheduled :
    (s : Sched) (qs : ℕ → List ℕ) (idle : ℕ)
    → AreReady s.threads s.ready_queues qs (λ _. none)
    → s.idle_thread ≡ some idle
    → IsScheduled (fall_back s)
unfolding fall_back
fall_back-IsScheduled s qs idle r e = elim (Bool-cases (current_runs s)) [
  | inl k ↦
      let (t, c, h) = current_runs-thread s k in
      rw (fall_back, k)
        (record {
          qs = qs;
          home = λ _. none;
          ready = r;
          idle = idle;
          idle_is = e;
          thread = t;
          current_is = c;
          runs = h;
          outside = refl;
        })
  | inr k ↦ rw (fall_back, k, e) (dispatch-IsScheduled s qs (λ _. none) idle idle r e refl)
]

-- What is left once the loop has chosen.
abbrev chosen : Sched × Option ℕ → Sched
chosen (s, t) = elim t [ some x ↦ dispatch s x | none ↦ fall_back s ]

-- `sched_yield` leaves a current thread that runs and waits nowhere, and the queues in order.
pub sched_yield-IsScheduled :
    (s : Sched) (qs : ℕ → List ℕ) (home : ℕ → Option ℕ) (idle : ℕ)
    → AreReady s.threads s.ready_queues qs home
    → s.idle_thread ≡ some idle
    → IsScheduled (sched_yield s)
unfolding sched_yield
sched_yield-IsScheduled s qs home idle r e =
    elim (pick-cases 5 s qs (λ l h. r.queues l (omega arith))) [
      | inl (empty, k) ↦
          subst (λ c. IsScheduled (chosen c)) (sym k)
            (fall_back-IsScheduled s qs idle
              (AreReady-empty s.threads s.ready_queues qs home r empty) e)
      | inr p ↦
          subst (λ c. IsScheduled (chosen c)) (sym p.result)
            (dispatch-IsScheduled (popped s p.level) (write qs p.level p.rest)
              (write home p.thread none) p.thread idle
              (AreReady-pop_front s.threads s.ready_queues qs home p.level p.thread p.rest r p.below
                p.was)
              e (write_self home p.thread none))
    ]
