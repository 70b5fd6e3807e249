-- ===== src/Sched/Ready/Move.antt =====
-- A thread that joins a queue of kernel/sched/sched.c, and one that leaves it.
use operating_system_sctrach.Common.{
  ℕ, ◌≡◌, ◌≢◌, refl, sym, ap, subst, ◌∙◌, ◌<◌, List, [], ◌∷◌, ◌++◌, Option, none, some, false, All,
  All-append, arith,
}
use operating_system_sctrach.Common.Memory.{write, write_ne, write_self, write-each}
use operating_system_sctrach.Sched.Types.{Thread, Threads, ThreadQueue}
use operating_system_sctrach.Sched.Queue.{push_back, pop_front}
use operating_system_sctrach.Sched.Queue.Links.{IsQueue, NotIn, Linked-agree}
use operating_system_sctrach.Sched.Queue.Push.{push_back-append}
use operating_system_sctrach.Sched.Queue.Pop.{pop_front-cons}
use operating_system_sctrach.Sched.Core.{is_free}
use operating_system_sctrach.Sched.Ready.{
  AreReady, NotIn-home, homes-write, first-home, final-home, home-ne, IsQueue-same,
}
use operating_system_sctrach.Sched.Ready.Frame.{
  push_back-frame, push_back-state, pop_front-frame, pop_front-state,
}

-- A queue whose threads are left alone.
IsQueue-agree :
    (ts ts' : Threads) (q : ThreadQueue) (xs : List ℕ)
    → All (λ y. ts' y ≡ ts y) xs
    → IsQueue ts q xs
    → IsQueue ts' q xs
IsQueue-agree ts ts' q xs same v = record {
  head_is = v.head_is;
  tail_is = v.tail_is;
  links = Linked-agree ts ts' none xs same v.links;
  distinct = v.distinct;
}

-- What holds of every thread of a level holds of the list.
All-home :
    (home : ℕ → Option ℕ) (l : ℕ) (P : ℕ → Type 0) (xs : List ℕ)
    → All (λ x. home x ≡ some l) xs
    → ((y : ℕ) → home y ≡ some l → P y)
    → All P xs
All-home home l P [] h f = tt
All-home home l P (x ∷ xs) h f = (f x h.0, All-home home l P xs h.1 f)

none-some : (l : ℕ) → none ≢ some l
none-some l e = absurd cc

-- The queue of one level changes, and the threads of the other levels are left alone.
IsQueue-level :
    (ts ts' : Threads) (rq : ℕ → ThreadQueue) (qs : ℕ → List ℕ) (home : ℕ → Option ℕ) (l : ℕ)
    → (q : ThreadQueue) (xs : List ℕ) → AreReady ts rq qs home
    → IsQueue ts' q xs
    → ((y m : ℕ) → m ≢ l → home y ≡ some m → ts' y ≡ ts y)
    → (m : ℕ) → m < 6
    → IsQueue ts' (write rq l q m) (write qs l xs m)
IsQueue-level ts ts' rq qs home l q xs r new same m h =
    write-each (λ k v. IsQueue ts' (write rq l q k) v) qs l xs m (rw (write_self rq l q) new)
      (λ ne. rw (write_ne rq l q m ne) (
        IsQueue-agree ts ts' (rq m) (qs m)
          (All-home home m (λ y. ts' y ≡ ts y) (qs m) (r.homes m h) (λ y k. same y m ne k))
          (r.queues m h)))

pub AreReady-push_back :
    (ts : Threads) (rq : ℕ → ThreadQueue) (qs : ℕ → List ℕ) (home : ℕ → Option ℕ) (l t : ℕ)
    → AreReady ts rq qs home
    → l < 5
    → home t ≡ none
    → is_free (ts t).state ≡ false
    → let (ts', q) = push_back ts (rq l) t in
      AreReady ts' (write rq l q) (write qs l (qs l ++ (t ∷ []))) (write home t (some l))
AreReady-push_back ts rq qs home l t r hl out used =
    let apart : (m : ℕ) → m < 6 → NotIn t (qs m) =
      λ m h. NotIn-home home m t (qs m) (r.homes m h) (λ k. none-some m (sym out ∙ k)) in
    let frame : (y m : ℕ) → m ≢ l → home y ≡ some m → (push_back ts (rq l) t).0 y ≡ ts y =
      λ y m ne k.
        push_back-frame ts (rq l) t y (λ j. none-some m (sym out ∙ ap home (sym j) ∙ k))
          (λ j.
            home-ne home l m y y
              (final-home home l y (qs l) (r.homes l (omega arith))
                (sym (r.queues l (omega arith)).tail_is ∙ j))
              k ne refl) in
    record {
      queues =
          IsQueue-level ts (push_back ts (rq l) t).0 rq qs home l (push_back ts (rq l) t).1
            (qs l ++ (t ∷ [])) r
            (push_back-append ts (rq l) t (qs l) (r.queues l (omega arith)) (apart l (omega arith)))
            frame;
      homes = λ m h.
          write-each (λ k v. All (λ x. write home t (some l) x ≡ some k) v) qs l (qs l ++ (t ∷ []))
            m
            (All-append (λ x. write home t (some l) x ≡ some l) (qs l) (t ∷ [])
              (homes-write home l t (some l) (qs l) (apart l (omega arith))
                (r.homes l (omega arith)))
              (write_self home t (some l), tt))
            (λ ne. homes-write home m t (some l) (qs m) (apart m h) (r.homes m h));
      taken = λ x m.
          write-each (λ k v. v ≡ some m → is_free ((push_back ts (rq l) t).0 k).state ≡ false) home
            t (some l) x (λ e. ap is_free (push_back-state ts (rq l) t t) ∙ used)
            (λ ne e. ap is_free (push_back-state ts (rq l) t x) ∙ r.taken x m e);
      isr = write_ne qs l (qs l ++ (t ∷ [])) 5 (λ k. omega arith) ∙ r.isr;
    }

-- The first thread of a level leaves it, and then waits nowhere.
pub AreReady-pop_front :
    (ts : Threads) (rq : ℕ → ThreadQueue) (qs : ℕ → List ℕ) (home : ℕ → Option ℕ) (l x : ℕ)
    → (xs : List ℕ) → AreReady ts rq qs home
    → l < 5
    → qs l ≡ x ∷ xs
    → let (ts', q, _) = pop_front ts (rq l) in
      AreReady ts' (write rq l q) (write qs l xs) (write home x none)
AreReady-pop_front ts rq qs home l x xs r hl e =
    let v = subst (IsQueue ts (rq l)) e (r.queues l (omega arith)) in
    let at = subst (All (λ y. home y ≡ some l)) e (r.homes l (omega arith)) in
    let frame : (y m : ℕ) → m ≢ l → home y ≡ some m → (pop_front ts (rq l)).0 y ≡ ts y = λ y m ne k.
      pop_front-frame ts (rq l) x y v.head_is (home-ne home l m x y at.0 k ne)
        (λ j. home-ne home l m y y (first-home home l y xs at.1 (sym v.links.1 ∙ j)) k ne refl) in
    record {
      queues =
          IsQueue-level ts (pop_front ts (rq l)).0 rq qs home l (pop_front ts (rq l)).1 xs r
            (pop_front-cons ts (rq l) x xs v).0 frame;
      homes = λ m h.
          write-each (λ k w. All (λ y. write home x none y ≡ some k) w) qs l xs m
            (homes-write home l x none xs v.distinct.0 at.1)
            (λ ne.
              homes-write home m x none (qs m)
                (NotIn-home home m x (qs m) (r.homes m h)
                  (λ k. home-ne home l m x x at.0 k ne refl))
                (r.homes m h));
      taken = λ y m.
          write-each (λ k w. w ≡ some m → is_free ((pop_front ts (rq l)).0 k).state ≡ false) home x
            none y (λ k. absurd (none-some m k))
            (λ ne k. ap is_free (pop_front-state ts (rq l) x y v.head_is) ∙ r.taken y m k);
      isr = write_ne qs l xs 5 (λ k. omega arith) ∙ r.isr;
    }

-- A thread that waits nowhere may change, and the others too but for their links, if they stay in use.
pub AreReady-threads :
    (ts ts' : Threads) (rq : ℕ → ThreadQueue) (qs : ℕ → List ℕ) (home : ℕ → Option ℕ)
    → AreReady ts rq qs home
    → ((y l : ℕ)
        → home y ≡ some l
        → ((ts' y).next ≡ (ts y).next)
          × ((ts' y).prev ≡ (ts y).prev)
          × (is_free (ts' y).state ≡ false))
    → AreReady ts' rq qs home
AreReady-threads ts ts' rq qs home r same = record {
  queues = λ l h.
      IsQueue-same ts ts' (rq l) (qs l)
        (All-home home l (λ y. ((ts' y).next ≡ (ts y).next) × ((ts' y).prev ≡ (ts y).prev)) (qs l)
          (r.homes l h) (λ y k. ((same y l k).0, (same y l k).1)))
        (r.queues l h);
  homes = r.homes;
  taken = λ x l k. (same x l k).2;
  isr = r.isr;
}

pub AreReady-write :
    (ts : Threads) (rq : ℕ → ThreadQueue) (qs : ℕ → List ℕ) (home : ℕ → Option ℕ) (t : ℕ)
    → (v : Thread) → AreReady ts rq qs home
    → home t ≡ none
    → AreReady (write ts t v) rq qs home
AreReady-write ts rq qs home t v r out = AreReady-threads ts (write ts t v) rq qs home r (λ y l k.
    let ne : y ≢ t = λ e. none-some l (sym out ∙ ap home (sym e) ∙ k) in
    rw (write_ne ts t v y ne) (refl, refl, r.taken y l k))
