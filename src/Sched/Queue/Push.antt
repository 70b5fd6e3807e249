-- ===== src/Sched/Queue/Push.antt =====
-- Pushing a thread onto a run queue of kernel/sched/sched.c.
use operating_system_sctrach.Common.{
  ℕ, ◌≡◌, refl, sym, ◌≢◌, List, [], ◌∷◌, ◌++◌, Option, none, some, arith, inl, inr, Option-cases,
  subst,
}
use operating_system_sctrach.Common.Memory.{write}
use operating_system_sctrach.Sched.Types.{Threads, ThreadQueue}
use operating_system_sctrach.Sched.Queue.{push_back, push_front, set_next, set_prev}
use operating_system_sctrach.Sched.Queue.Links.{
  NotIn, Distinct, first, final, Linked, IsQueue, Linked-write, final-ne, IsQueue-ends,
}

-- The threads after `t` is hung behind `l`.
abbrev behind : Threads → ℕ → ℕ → Threads
behind ts l t = set_next (set_prev (set_next ts t none) t (some l)) l (some t)

Linked-behind :
    (ts : Threads) (l t : ℕ) (before : Option ℕ) (x : ℕ) (xs : List ℕ)
    → Distinct (x ∷ xs)
    → NotIn t (x ∷ xs)
    → final (x ∷ xs) ≡ some l
    → Linked ts before (x ∷ xs)
    → Linked (behind ts l t) before (x ∷ xs ++ (t ∷ []))
unfolding write
Linked-behind ts l t before x [] d out e k = ground arith
Linked-behind ts l t before x (y ∷ ys) d out e k =
    let rest = Linked-behind ts l t (some x) y ys d.1 out.1 e k.2 in
    let ne = final-ne x l (y ∷ ys) d.0 e in (ground arith, ground arith, rest)

pub Distinct-append : (xs : List ℕ) (t : ℕ) → Distinct xs → NotIn t xs → Distinct (xs ++ (t ∷ []))
Distinct-append [] t d out = (tt, tt)
Distinct-append (x ∷ xs) t d out =
    (apart x xs d.0 (λ e. out.0 (sym e)), Distinct-append xs t d.1 out.1)
  where
    apart : (x : ℕ) (xs : List ℕ) → NotIn x xs → t ≢ x → NotIn x (xs ++ (t ∷ []))
    apart x [] h ne = (ne, tt)
    apart x (y ∷ ys) h ne = (h.0, apart x ys h.1 ne)

final-append : (xs : List ℕ) (t : ℕ) → final (xs ++ (t ∷ [])) ≡ some t
final-append [] t = refl
final-append (x ∷ []) t = refl
final-append (x ∷ y ∷ ys) t = final-append (y ∷ ys) t

final-cons : (x : ℕ) (xs : List ℕ) → final (x ∷ xs) ≢ none
final-cons x [] = λ e. cc
final-cons x (y ∷ ys) = final-cons y ys

-- The queue with the ends of a list.
abbrev ends : List ℕ → ThreadQueue
ends xs = record { head = first xs; tail = final xs }

abbrev Appended : Threads → ℕ → List ℕ → ThreadQueue → Type 0
Appended ts t xs q = IsQueue (push_back ts q t).0 (push_back ts q t).1 (xs ++ (t ∷ []))

push_back-ends :
    (ts : Threads) (t : ℕ) (xs : List ℕ)
    → Linked ts none xs
    → Distinct xs
    → NotIn t xs
    → Appended ts t xs (ends xs)
unfolding push_back write
push_back-ends ts t [] k d out = record {
  head_is = refl;
  tail_is = refl;
  links = (ground arith, ground arith, tt);
  distinct = (tt, tt);
}
push_back-ends ts t (x ∷ xs) k d out = elim (Option-cases (final (x ∷ xs))) [
  | inl e ↦ absurd (final-cons x xs e)
  | inr (l, e) ↦ rw (e) (record {
    head_is = refl;
    tail_is = sym (final-append (x ∷ xs) t);
    links = Linked-behind ts l t none x xs d out e k;
    distinct = Distinct-append (x ∷ xs) t d out;
  })
]

-- `queue_push_back` appends a thread that is not in the queue.
pub push_back-append :
    (ts : Threads) (q : ThreadQueue) (t : ℕ) (xs : List ℕ)
    → IsQueue ts q xs
    → NotIn t xs
    → let (ts', q') = push_back ts q t in IsQueue ts' q' (xs ++ (t ∷ []))
push_back-append ts q t xs v out =
    subst (Appended ts t xs) (sym (IsQueue-ends ts q xs v))
      (push_back-ends ts t xs v.links v.distinct out)

abbrev Prepended : Threads → ℕ → List ℕ → ThreadQueue → Type 0
Prepended ts t xs q = IsQueue (push_front ts q t).0 (push_front ts q t).1 (t ∷ xs)

push_front-ends :
    (ts : Threads) (t : ℕ) (xs : List ℕ)
    → Linked ts none xs
    → Distinct xs
    → NotIn t xs
    → Prepended ts t xs (ends xs)
unfolding push_front write
push_front-ends ts t [] k d out = record {
  head_is = refl;
  tail_is = refl;
  links = (ground arith, ground arith, tt);
  distinct = (tt, tt);
}
push_front-ends ts t (x ∷ xs) k d out =
    let apart = out.0 in
    let after = k.1 in
    let ts1 = set_next (set_prev ts t none) t (some x) in
    let rest =
      Linked-write ts1 x (record (ts1 x) { prev = some t }) (some x) xs d.0
        (Linked-write (set_prev ts t none) t (record (set_prev ts t none t) { next = some x })
          (some x) xs out.1
          (Linked-write ts t (record (ts t) { prev = none }) (some x) xs out.1 k.2)) in
    record {
      head_is = refl;
      tail_is = refl;
      links = (ground arith, ground arith, (ground arith, ground arith, rest));
      distinct = (out, d);
    }

-- `queue_push_front` puts a thread that is not in the queue before the others.
pub push_front-cons :
    (ts : Threads) (q : ThreadQueue) (t : ℕ) (xs : List ℕ)
    → IsQueue ts q xs
    → NotIn t xs
    → let (ts', q') = push_front ts q t in IsQueue ts' q' (t ∷ xs)
push_front-cons ts q t xs v out =
    subst (Prepended ts t xs) (sym (IsQueue-ends ts q xs v))
      (push_front-ends ts t xs v.links v.distinct out)
