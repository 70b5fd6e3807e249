-- ===== src/Sched/Core/Create.antt =====
-- Where `sched_create_named_kthread` of kernel/sched/sched.c puts a new thread.
use operating_system_sctrach.Common.{
  ℕ, zero, suc, ◌+◌, ◌<◌, ◌≡◌, ◌≢◌, refl, sym, ap, subst, ◌∙◌, List, [], ◌∷◌, ◌++◌, All, none, some,
  true, false, Bool-cases, Option-cases, inl, inr, leb, arith,
}
use operating_system_sctrach.Common.Memory.{write, write_self}
use operating_system_sctrach.Sched.Types.{Threads, Sched, max_threads}
use operating_system_sctrach.Sched.Queue.{push_back}
use operating_system_sctrach.Sched.Queue.Links.{IsQueue, NotIn, Linked-write}
use operating_system_sctrach.Sched.Queue.Push.{push_back-append}
use operating_system_sctrach.Sched.Core.{
  is_free, free_slot, new_thread, start_thread, create_named_kthread, clamp_priority,
}

pub some-injective : (i j : ℕ) → some i ≡ some j → i ≡ j
some-injective i j e = cc

-- The search finds a slot of the range that a new thread may take.
pub free_slot-is_free :
    (ts : Threads) (n i j : ℕ)
    → free_slot ts n i ≡ some j
    → (is_free (ts j).state ≡ true) × (j < i + n)
unfolding free_slot
free_slot-is_free ts zero i j e = absurd (ground arith)
free_slot-is_free ts (suc n) i j e = elim (Bool-cases (is_free (ts i).state)) [
  | inl k ↦
      let first : free_slot ts (suc n) i ≡ some i = rw (free_slot, k) refl in
      let same : i ≡ j = some-injective i j (sym first ∙ e) in
      subst (λ x. (is_free (ts x).state ≡ true) × (x < i + suc n)) same (k, omega arith)
  | inr k ↦
      let skip : free_slot ts (suc n) i ≡ free_slot ts n (i + 1) = rw (free_slot, k) refl in
      let rest = free_slot-is_free ts n (i + 1) j (sym skip ∙ e) in (rest.0, omega (arith, rest.1))
]

none-some : (i : ℕ) → none ≢ some i
none-some i e = absurd cc

start_thread-IsQueue :
    (s : Sched) (i entry p : ℕ) (name xs : List ℕ)
    → IsQueue s.threads (s.ready_queues p) xs
    → NotIn i xs
    → let s' = start_thread s i entry p name in
      IsQueue s'.threads (s'.ready_queues p) (xs ++ (i ∷ []))
unfolding start_thread
start_thread-IsQueue s i entry p name xs v out =
    let t = new_thread s.next_tid entry p name in
    let ts = write s.threads i t in
    let v' : IsQueue ts (s.ready_queues p) xs = record {
      head_is = v.head_is;
      tail_is = v.tail_is;
      links = Linked-write s.threads i t none xs out v.links;
      distinct = v.distinct;
    } in
    rw (write_self s.ready_queues p (push_back ts (s.ready_queues p) i).1)
      (push_back-append ts (s.ready_queues p) i xs v' out)

-- No thread of the list has a slot that a new thread may take.
abbrev pub AreTaken : Threads → List ℕ → Type 0
AreTaken ts = All (λ x. is_free (ts x).state ≡ false)

AreTaken-NotIn :
    (ts : Threads) (i : ℕ) (xs : List ℕ) → is_free (ts i).state ≡ true → AreTaken ts xs → NotIn i xs
AreTaken-NotIn ts i [] e t = tt
AreTaken-NotIn ts i (x ∷ xs) e t =
    ((λ k. apart (ap (λ y. is_free (ts y).state) k)), AreTaken-NotIn ts i xs e t.1)
  where
    apart : is_free (ts x).state ≢ is_free (ts i).state
    apart k = absurd (ground arith)

-- A thread that is created takes a slot that was terminated or never used, and goes to the end of the
-- run queue of its priority, behind the threads that waited there.
pub create_named_kthread-IsQueue :
    (s : Sched) (entry priority i : ℕ) (name xs : List ℕ)
    → (create_named_kthread s entry priority name).1 ≡ some i
    → IsQueue s.threads (s.ready_queues (clamp_priority priority)) xs
    → AreTaken s.threads xs
    → let s' = (create_named_kthread s entry priority name).0 in
      (is_free (s.threads i).state ≡ true)
      × (i < max_threads)
      × IsQueue s'.threads (s'.ready_queues (clamp_priority priority)) (xs ++ (i ∷ []))
unfolding create_named_kthread
create_named_kthread-IsQueue s entry priority i name xs made v taken =
    let p = clamp_priority priority in
    elim (Bool-cases (leb max_threads s.thread_count)) [
      | inl k ↦ absurd (none-some i ((sym (rw (create_named_kthread, k) refl)) ∙ made))
      | inr k ↦ elim (Option-cases (free_slot s.threads max_threads 0)) [
        | inl e ↦ absurd (none-some i ((sym (rw (create_named_kthread, k, e) refl)) ∙ made))
        | inr (j, e) ↦
            let chosen : (create_named_kthread s entry priority name).1 ≡ some j =
              rw (create_named_kthread, k, e) refl in
            let same : i ≡ j = some-injective i j (sym made ∙ chosen) in
            let free = free_slot-is_free s.threads max_threads 0 i (e ∙ ap some (sym same)) in
            let e' : free_slot s.threads max_threads 0 ≡ some i = e ∙ ap some (sym same) in
            rw (create_named_kthread, k, e')
              (
                free.0,
                free.1,
                start_thread-IsQueue s i entry p name xs v
                    (AreTaken-NotIn s.threads i xs free.0 taken),
              )
      ]
    ]
