-- ===== src/Sched/Tick/Sleep.antt =====
-- The order of the sleep queue of kernel/sched/sched.c.
use operating_system_sctrach.Common.{
  ℕ, zero, suc, ◌≤◌, ◌≡◌, ◌≢◌, refl, sym, ap, subst, List, [], ◌∷◌, length, Option, none, some, ◌∙◌,
  true, false, ltb, leb, if◌then◌else◌, arith, Bool-cases, inl, inr,
}
use operating_system_sctrach.Common.Memory.{write, write_ne, write_self}
use operating_system_sctrach.Sched.Types.{Thread, Threads, Sched}
use operating_system_sctrach.Sched.Queue.{set_next}
use operating_system_sctrach.Sched.Queue.Links.{NotIn, Distinct, first}
use operating_system_sctrach.Sched.Tick.{sleep_after, sleep_insert}

-- The `next` links along a list.
abbrev pub Chained : Threads → List ℕ → Type 0
Chained ts [] = Unit {0}
Chained ts (x ∷ xs) = ((ts x).next ≡ first xs) × Chained ts xs

-- The earliest to wake up first.
abbrev pub InOrder : Threads → List ℕ → Type 0
InOrder ts [] = Unit {0}
InOrder ts (x ∷ []) = Unit {0}
InOrder ts (x ∷ y ∷ ys) = ((ts x).sleep_until ≤ (ts y).sleep_until) × InOrder ts (y ∷ ys)

-- The list with the thread `t` behind all that wake up no later.
abbrev pub entered : Threads → ℕ → List ℕ → List ℕ
entered ts t [] = t ∷ []
entered ts t (x ∷ xs) =
    if ltb (ts t).sleep_until (ts x).sleep_until then t ∷ x ∷ xs else x ∷ entered ts t xs

Chained-write :
    (ts : Threads) (t : ℕ) (v : Thread) (xs : List ℕ)
    → NotIn t xs
    → Chained ts xs
    → Chained (write ts t v) xs
Chained-write ts t v [] out c = tt
Chained-write ts t v (x ∷ xs) out c =
    (rw (write_ne ts t v x out.0) c.0, Chained-write ts t v xs out.1 c.1)

-- The walk ends at a thread of the list.
sleep_after-ne :
    (n due z x : ℕ) (xs : List ℕ) (ts : Threads)
    → Chained ts (x ∷ xs)
    → NotIn z (x ∷ xs)
    → sleep_after n ts due x ≢ z
unfolding sleep_after
sleep_after-ne zero due z x xs ts c out = out.0
sleep_after-ne (suc n) due z x [] ts c out = rw (sleep_after, c.0) out.0
sleep_after-ne (suc n) due z x (y ∷ ys) ts c out = elim (Bool-cases (leb (ts y).sleep_until due)) [
  | inl e ↦ rw (sleep_after, c.0, e) (sleep_after-ne n due z y ys ts c.1 out.1)
  | inr e ↦ rw (sleep_after, c.0, e) out.0
]

-- The threads once `t` is hung behind `cur`.
abbrev hung : Threads → ℕ → ℕ → Threads
hung ts t cur = set_next (set_next ts t (ts cur).next) cur (some t)

hung-at :
    (ts : Threads) (t x : ℕ) (xs : List ℕ)
    → NotIn t (x ∷ xs)
    → Distinct (x ∷ xs)
    → Chained ts (x ∷ xs)
    → Chained (hung ts t x) (x ∷ t ∷ xs)
hung-at ts t x xs out d c =
    let ts1 = set_next ts t (ts x).next in
    (
      rw (write_self ts1 x (record (ts1 x) { next = some t })) refl,
      (
        rw
            (
              write_ne ts1 x (record (ts1 x) { next = some t }) t (λ e. out.0 (sym e)),
              write_self ts t (record (ts t) { next = (ts x).next }),
            )
            c.0,
        Chained-write ts1 x (record (ts1 x) { next = some t }) xs d.0
            (Chained-write ts t (record (ts t) { next = (ts x).next }) xs out.1 c.1),
      ),
    )

hung-walk :
    (n t x : ℕ) (xs : List ℕ) (ts : Threads)
    → length xs ≤ n
    → NotIn t (x ∷ xs)
    → Distinct (x ∷ xs)
    → Chained ts (x ∷ xs)
    → Chained (hung ts t (sleep_after n ts (ts t).sleep_until x)) (x ∷ entered ts t xs)
unfolding sleep_after
hung-walk zero t x [] ts h out d c = hung-at ts t x [] out d c
hung-walk zero t x (y ∷ ys) ts h out d c = absurd (omega arith)
hung-walk (suc n) t x [] ts h out d c =
    let at : sleep_after (suc n) ts (ts t).sleep_until x ≡ x = rw (sleep_after, c.0) refl in
    subst (λ k. Chained (hung ts t k) (x ∷ t ∷ [])) (sym at) (hung-at ts t x [] out d c)
hung-walk (suc n) t x (y ∷ ys) ts h out d c =
    let due = (ts t).sleep_until in
    elim (Bool-cases (leb (ts y).sleep_until due)) [
      | inl e ↦
          let at : sleep_after (suc n) ts due x ≡ sleep_after n ts due y =
            rw (sleep_after, c.0, e) refl in
          let later : ltb due (ts y).sleep_until ≡ false = ground arith in
          let cur = sleep_after n ts due y in
          let rest = hung-walk n t y ys ts (omega arith) out.1 d.1 c.1 in
          let apart = sleep_after-ne n due x y ys ts c.1 d.0 in
          let ts1 = set_next ts t (ts cur).next in
          let linked : (hung ts t cur x).next ≡ some y =
            rw
              (
                write_ne ts1 cur (record (ts1 cur) { next = some t }) x (λ k. apart (sym k)),
                write_ne ts t (record (ts t) { next = (ts cur).next }) x out.0,
              )
              c.0 in
          subst (λ k. Chained (hung ts t k) (x ∷ entered ts t (y ∷ ys))) (sym at)
            (rw later (linked, rest))
      | inr e ↦
          let at : sleep_after (suc n) ts due x ≡ x = rw (sleep_after, c.0, e) refl in
          let sooner : ltb due (ts y).sleep_until ≡ true = ground arith in
          subst (λ k. Chained (hung ts t k) (x ∷ entered ts t (y ∷ ys))) (sym at)
            (rw sooner (hung-at ts t x (y ∷ ys) out d c))
    ]

InOrder-entered :
    (ts : Threads) (t : ℕ) (xs : List ℕ) → InOrder ts xs → InOrder ts (entered ts t xs)
InOrder-entered ts t [] o = tt
InOrder-entered ts t (x ∷ []) o = elim (Bool-cases (ltb (ts t).sleep_until (ts x).sleep_until)) [
  | inl e ↦ rw e (ground arith, tt)
  | inr e ↦ rw e (ground arith, tt)
]
InOrder-entered ts t (x ∷ y ∷ ys) o =
    let rest = InOrder-entered ts t (y ∷ ys) o.1 in
    elim (Bool-cases (ltb (ts t).sleep_until (ts x).sleep_until)) [
      | inl e ↦ rw e (ground arith, o)
      | inr e ↦ elim (Bool-cases (ltb (ts t).sleep_until (ts y).sleep_until)) [
        | inl k ↦ rw (e, k) (ground arith, (ground arith, o.1))
        | inr k ↦
            rw (e, k)
              (
                o.0,
                subst (InOrder ts) (ap (λ b. if b then t ∷ y ∷ ys else y ∷ entered ts t ys) k) rest,
              )
      ]
    ]

-- Writing links changes no deadline.
InOrder-same :
    (ts ts' : Threads) (xs : List ℕ)
    → ((y : ℕ) → (ts' y).sleep_until ≡ (ts y).sleep_until)
    → InOrder ts xs
    → InOrder ts' xs
InOrder-same ts ts' [] same o = tt
InOrder-same ts ts' (x ∷ []) same o = tt
InOrder-same ts ts' (x ∷ y ∷ ys) same o =
    (omega (arith, same x, same y, o.0), InOrder-same ts ts' (y ∷ ys) same o.1)

set_next-until :
    (ts : Threads) (t : ℕ) (v : Option ℕ) (y : ℕ)
    → (set_next ts t v y).sleep_until ≡ (ts y).sleep_until
unfolding write
set_next-until ts t v y = ground arith

-- What `sleep_insert` does for each first thread of the queue.
sleep_insert-empty :
    (s : Sched) (t : ℕ)
    → s.sleep_queue ≡ none
    → sleep_insert s t ≡ record s { threads = set_next s.threads t none; sleep_queue = some t }
unfolding sleep_insert
sleep_insert-empty s t e =
    ap
      (λ (o : Option ℕ). elim o [
        | none ↦ record s { threads = set_next s.threads t none; sleep_queue = some t }
        | some k ↦
            if ltb (s.threads t).sleep_until (s.threads k).sleep_until
            then record s { threads = set_next s.threads t (some k); sleep_queue = some t }
            else record s {
              threads = hung s.threads t (sleep_after 128 s.threads (s.threads t).sleep_until k);
            }
      ])
      e

sleep_insert-first :
    (s : Sched) (t h : ℕ)
    → s.sleep_queue ≡ some h
    → ltb (s.threads t).sleep_until (s.threads h).sleep_until ≡ true
    → sleep_insert s t ≡ record s { threads = set_next s.threads t (some h); sleep_queue = some t }
unfolding sleep_insert
sleep_insert-first s t h e sooner =
    ap
      (λ (o : Option ℕ). elim o [
        | none ↦ record s { threads = set_next s.threads t none; sleep_queue = some t }
        | some k ↦
            if ltb (s.threads t).sleep_until (s.threads k).sleep_until
            then record s { threads = set_next s.threads t (some k); sleep_queue = some t }
            else record s {
              threads = hung s.threads t (sleep_after 128 s.threads (s.threads t).sleep_until k);
            }
      ])
      e
    ∙ ap
        (λ b.
          if b
          then record s { threads = set_next s.threads t (some h); sleep_queue = some t }
          else record s {
            threads = hung s.threads t (sleep_after 128 s.threads (s.threads t).sleep_until h);
          })
        sooner

sleep_insert-later :
    (s : Sched) (t h : ℕ)
    → s.sleep_queue ≡ some h
    → ltb (s.threads t).sleep_until (s.threads h).sleep_until ≡ false
    → sleep_insert s t ≡ record s {
      threads = hung s.threads t (sleep_after 128 s.threads (s.threads t).sleep_until h);
    }
unfolding sleep_insert
sleep_insert-later s t h e later =
    ap
      (λ (o : Option ℕ). elim o [
        | none ↦ record s { threads = set_next s.threads t none; sleep_queue = some t }
        | some k ↦
            if ltb (s.threads t).sleep_until (s.threads k).sleep_until
            then record s { threads = set_next s.threads t (some k); sleep_queue = some t }
            else record s {
              threads = hung s.threads t (sleep_after 128 s.threads (s.threads t).sleep_until k);
            }
      ])
      e
    ∙ ap
        (λ b.
          if b
          then record s { threads = set_next s.threads t (some h); sleep_queue = some t }
          else record s {
            threads = hung s.threads t (sleep_after 128 s.threads (s.threads t).sleep_until h);
          })
        later

-- The sleep queue holds the threads of the list, by their `next` links, the earliest to wake up first.
pub record IsAsleep (s : Sched) (xs : List ℕ) : Type 0 where
  pub head_is : s.sleep_queue ≡ first xs
  pub links : Chained s.threads xs
  pub order : InOrder s.threads xs

-- `sched_sleep` puts the thread that goes to sleep behind all those that wake up no later and before all
-- others: where the sleep queue holds a list of at most 128 distinct threads, the earliest to wake up first,
-- and the thread is not among them, it then holds that list with the thread at this place, which is again in
-- the order of waking up.
pub sleep_insert-IsAsleep :
    (s : Sched) (t : ℕ) (xs : List ℕ)
    → IsAsleep s xs
    → Distinct xs
    → NotIn t xs
    → length xs ≤ 128
    → IsAsleep (sleep_insert s t) (entered s.threads t xs)
sleep_insert-IsAsleep s t [] v d out h =
    subst (λ s'. IsAsleep s' (t ∷ [])) (sym (sleep_insert-empty s t v.head_is))
      (record {
        head_is = refl;
        links = (rw (write_self s.threads t (record (s.threads t) { next = none })) refl, tt);
        order = tt;
      })
sleep_insert-IsAsleep s t (x ∷ xs) v d out h =
    let due = (s.threads t).sleep_until in
    let ts = s.threads in
    let placed = InOrder-entered ts t (x ∷ xs) v.order in
    elim (Bool-cases (ltb due (ts x).sleep_until)) [
      | inl e ↦
          let ts' = set_next ts t (some x) in
          let order =
            subst (InOrder ts) (ap (λ b. if b then t ∷ x ∷ xs else x ∷ entered ts t xs) e) placed in
          rw (sleep_insert-first s t x v.head_is e, e)
            (record {
              head_is = refl;
              links = (
                rw (write_self ts t (record (ts t) { next = some x })) refl,
                Chained-write ts t (record (ts t) { next = some x }) (x ∷ xs) out v.links,
              );
              order = InOrder-same ts ts' (t ∷ x ∷ xs) (set_next-until ts t (some x)) order;
            })
      | inr e ↦
          let cur = sleep_after 128 ts due x in
          let order =
            subst (InOrder ts) (ap (λ b. if b then t ∷ x ∷ xs else x ∷ entered ts t xs) e) placed in
          rw (sleep_insert-later s t x v.head_is e, e)
            (record {
              head_is = v.head_is;
              links = hung-walk 128 t x xs ts (omega arith) out d v.links;
              order =
                  InOrder-same ts (hung ts t cur) (x ∷ entered ts t xs)
                    (λ y.
                      set_next-until (set_next ts t (ts cur).next) cur (some t) y
                      ∙ set_next-until ts t (ts cur).next y)
                    order;
            })
    ]
