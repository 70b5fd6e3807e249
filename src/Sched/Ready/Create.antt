-- ===== src/Sched/Ready/Create.antt =====
-- How a thread that `sched_create_named_kthread` of kernel/sched/sched.c makes joins the queues.
use operating_system_sctrach.Common.{
  ℕ, ◌≡◌, ◌≢◌, refl, sym, ap, subst, ◌∙◌, ◌<◌, List, [], ◌∷◌, ◌++◌, Option, none, some, false, true,
  arith, ◌⊎◌, inl, inr, Bool-cases, Option-cases, leb,
}
use operating_system_sctrach.Common.Memory.{write, write_ne, write_self}
use operating_system_sctrach.Sched.Types.{Thread, Threads, ThreadQueue, Sched, max_threads}
use operating_system_sctrach.Sched.Core.{
  create_named_kthread, start_thread, new_thread, free_slot, clamp_priority, is_running, is_free,
}
use operating_system_sctrach.Sched.Core.Create.{free_slot-is_free}
use operating_system_sctrach.Sched.Ready.{AreReady, IsScheduled}
use operating_system_sctrach.Sched.Ready.Move.{AreReady-push_back, AreReady-write}
use operating_system_sctrach.Sched.Ready.Frame.{push_back-state}
use operating_system_sctrach.Sched.Ready.Steps.{is_running-is_free}

-- The scheduler before its first choice: the queues are in order, and there is an idle thread.
pub record IsStarted (s : Sched) : Type 0 where
  pub qs : ℕ → List ℕ
  pub home : ℕ → Option ℕ
  pub ready : AreReady s.threads s.ready_queues qs home
  pub idle : ℕ
  pub idle_is : s.idle_thread ≡ some idle

-- A slot that a new thread may take waits nowhere.
free-home :
    (ts : Threads) (rq : ℕ → ThreadQueue) (qs : ℕ → List ℕ) (home : ℕ → Option ℕ) (i : ℕ)
    → AreReady ts rq qs home
    → is_free (ts i).state ≡ true
    → home i ≡ none
free-home ts rq qs home i r h = elim (Option-cases (home i)) [
  | inl e ↦ e
  | inr (l, e) ↦ let k = r.taken i l e in absurd (ground arith)
]

new_thread-used :
    (id entry p : ℕ) (name : List ℕ) → is_free (new_thread id entry p name).state ≡ false
unfolding new_thread
new_thread-used id entry p name = refl

pub start_thread-AreReady :
    (s : Sched) (i entry p : ℕ) (name : List ℕ) (qs : ℕ → List ℕ) (home : ℕ → Option ℕ)
    → AreReady s.threads s.ready_queues qs home
    → p < 5
    → home i ≡ none
    → let s' = start_thread s i entry p name in
      AreReady s'.threads s'.ready_queues (write qs p (qs p ++ (i ∷ []))) (write home i (some p))
unfolding start_thread
start_thread-AreReady s i entry p name qs home r h out =
    let t = new_thread s.next_tid entry p name in
    AreReady-push_back (write s.threads i t) s.ready_queues qs home p i
      (AreReady-write s.threads s.ready_queues qs home i t r out) h out
      (rw (write_self s.threads i t) (new_thread-used s.next_tid entry p name))

-- Either nothing was created, or a slot that was free was filled.
create_named_kthread-cases :
    (s : Sched) (entry priority : ℕ) (name : List ℕ)
    → ((create_named_kthread s entry priority name).0 ≡ s)
      ⊎ ((i : ℕ) × (is_free (s.threads i).state ≡ true)
          × ((create_named_kthread s entry priority name).0
              ≡ start_thread s i entry (clamp_priority priority) name))
unfolding create_named_kthread
create_named_kthread-cases s entry priority name =
    elim (Bool-cases (leb max_threads s.thread_count)) [
      | inl k ↦ inl (rw (create_named_kthread, k) refl)
      | inr k ↦ elim (Option-cases (free_slot s.threads max_threads 0)) [
        | inl e ↦ inl (rw (create_named_kthread, k, e) refl)
        | inr (i, e) ↦ inr (
          i,
          (free_slot-is_free s.threads max_threads 0 i e).0,
          rw (create_named_kthread, k, e) refl,
        )
      ]
    ]

-- The levels that threads are created at: all but the one for interrupts.
abbrev pub IsSchedulable : ℕ → Type 0
IsSchedulable priority = clamp_priority priority < 5

start_thread-frame :
    (s : Sched) (i entry p : ℕ) (name : List ℕ)
    → ((start_thread s i entry p name).idle_thread ≡ s.idle_thread)
      × ((start_thread s i entry p name).current_thread ≡ s.current_thread)
unfolding start_thread
start_thread-frame s i entry p name = (refl, refl)

start_thread-IsStarted :
    (s : Sched) (i entry p : ℕ) (name : List ℕ)
    → is_free (s.threads i).state ≡ true
    → p < 5
    → IsStarted s
    → IsStarted (start_thread s i entry p name)
start_thread-IsStarted s i entry p name free h v = record {
  qs = write v.qs p (v.qs p ++ (i ∷ []));
  home = write v.home i (some p);
  ready =
      start_thread-AreReady s i entry p name v.qs v.home v.ready h
        (free-home s.threads s.ready_queues v.qs v.home i v.ready free);
  idle = v.idle;
  idle_is = (start_thread-frame s i entry p name).0 ∙ v.idle_is;
}

start_thread-other :
    (s : Sched) (i entry p t : ℕ) (name : List ℕ)
    → t ≢ i
    → ((start_thread s i entry p name).threads t).state ≡ (s.threads t).state
unfolding start_thread
start_thread-other s i entry p t name ne =
    push_back-state (write s.threads i (new_thread s.next_tid entry p name)) (s.ready_queues p) i t
    ∙ ap (λ (x : Thread). x.state) (write_ne s.threads i (new_thread s.next_tid entry p name) t ne)

start_thread-IsScheduled :
    (s : Sched) (i entry p : ℕ) (name : List ℕ)
    → is_free (s.threads i).state ≡ true
    → p < 5
    → IsScheduled s
    → IsScheduled (start_thread s i entry p name)
start_thread-IsScheduled s i entry p name free h v =
    let used = is_running-is_free (s.threads v.thread).state v.runs in
    let ne : v.thread ≢ i =
      λ e. true-false (sym free ∙ ap (λ t. is_free (s.threads t).state) (sym e) ∙ used) in
    record {
      qs = write v.qs p (v.qs p ++ (i ∷ []));
      home = write v.home i (some p);
      ready =
          start_thread-AreReady s i entry p name v.qs v.home v.ready h
            (free-home s.threads s.ready_queues v.qs v.home i v.ready free);
      idle = v.idle;
      idle_is = (start_thread-frame s i entry p name).0 ∙ v.idle_is;
      thread = v.thread;
      current_is = (start_thread-frame s i entry p name).1 ∙ v.current_is;
      runs = ap is_running (start_thread-other s i entry p v.thread name ne) ∙ v.runs;
      outside = write_ne v.home i (some p) v.thread ne ∙ v.outside;
    }
  where
    true-false : true ≢ false
    true-false e = absurd cc

pub create_named_kthread-IsStarted :
    (s : Sched) (entry priority : ℕ) (name : List ℕ)
    → IsSchedulable priority
    → IsStarted s
    → IsStarted (create_named_kthread s entry priority name).0
create_named_kthread-IsStarted s entry priority name h v =
    elim (create_named_kthread-cases s entry priority name) [
      | inl e ↦ subst IsStarted (sym e) v
      | inr (i, free, e) ↦
          subst IsStarted (sym e)
            (start_thread-IsStarted s i entry (clamp_priority priority) name free h v)
    ]

pub create_named_kthread-IsScheduled :
    (s : Sched) (entry priority : ℕ) (name : List ℕ)
    → IsSchedulable priority
    → IsScheduled s
    → IsScheduled (create_named_kthread s entry priority name).0
create_named_kthread-IsScheduled s entry priority name h v =
    elim (create_named_kthread-cases s entry priority name) [
      | inl e ↦ subst IsScheduled (sym e) v
      | inr (i, free, e) ↦
          subst IsScheduled (sym e)
            (start_thread-IsScheduled s i entry (clamp_priority priority) name free h v)
    ]
