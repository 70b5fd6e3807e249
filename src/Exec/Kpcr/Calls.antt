-- ===== src/Exec/Kpcr/Calls.antt =====
-- The queue of deferred calls of kernel/exec/kpcr.c as a list of calls, first come, first served.
use operating_system_sctrach.Common.{
  ℕ, zero, suc, ◌%◌, ◌^◌, ◌≡◌, refl, sym, ◌≢◌, List, [], ◌∷◌, ◌++◌, length, length-append, some,
  arith, ◌==◌, false, ap, ◌∙◌, subst, ◌≤◌,
}
use operating_system_sctrach.Common.Memory.{write, write_ne, write_self}
use operating_system_sctrach.Heap.{kfree}
use operating_system_sctrach.Sched.Queue.Links.{NotIn, Distinct}
use operating_system_sctrach.Sched.Queue.Push.{Distinct-append}
use operating_system_sctrach.Exec.Kpcr.{
  DpcNode, Kprcb, Kpcr, Local, Callback, appended, hung, unlinked, run_first, flush_dpc_queue,
}

-- A call that waits: the address of its node, the callback and the context.
abbrev pub Waiting : Type 0
Waiting = ℕ × ℕ × ℕ

abbrev pub start : List Waiting → ℕ
start [] = 0
start ((p, c, x) ∷ es) = p

abbrev pub last : List Waiting → ℕ
last [] = 0
last ((p, c, x) ∷ []) = p
last (e ∷ d ∷ es) = last (d ∷ es)

abbrev pub addresses : List Waiting → List ℕ
addresses [] = []
addresses ((p, c, x) ∷ es) = p ∷ addresses es

-- The nodes in memory, each followed by the next; no address and no callback is NULL.
abbrev pub Linked : (ℕ → DpcNode) → List Waiting → Type 0
Linked nodes [] = Unit {0}
Linked nodes ((p, c, x) ∷ es) =
    (p ≢ 0)
    × (c ≢ 0)
    × (nodes p ≡ record { callback = c; context = x; next = start es })
    × Linked nodes es

-- The block and the memory hold the waiting calls in this order.
pub record IsPending (b : Kprcb) (nodes : ℕ → DpcNode) (es : List Waiting) : Type 0 where
  pub head_is : b.dpc_queue_head ≡ start es
  pub tail_is : b.dpc_queue_tail ≡ last es
  pub count_is : b.dpc_queue_count ≡ length es % 2 ^ 32
  pub links : Linked nodes es
  pub distinct : Distinct (addresses es)

Linked-write :
    (nodes : ℕ → DpcNode) (p : ℕ) (n : DpcNode) (es : List Waiting)
    → NotIn p (addresses es)
    → Linked nodes es
    → Linked (write nodes p n) es
Linked-write nodes p n [] out k = tt
Linked-write nodes p n ((q, c, x) ∷ es) out k =
    (k.0, k.1, rw (write_ne nodes p n q out.0) k.2, Linked-write nodes p n es out.1 k.3)

last-ne :
    (q : ℕ) (e : Waiting) (es : List Waiting) → NotIn q (addresses (e ∷ es)) → q ≢ last (e ∷ es)
last-ne q (p, c, x) [] out = λ k. out.0 (sym k)
last-ne q e (d ∷ es) out = last-ne q d es out.1

last-append : (es : List Waiting) (p c x : ℕ) → last (es ++ ((p, c, x) ∷ [])) ≡ p
last-append [] p c x = refl
last-append (e ∷ []) p c x = refl
last-append (e ∷ d ∷ es) p c x = last-append (d ∷ es) p c x

pub addresses-append :
    (es : List Waiting) (p c x : ℕ) → addresses (es ++ ((p, c, x) ∷ [])) ≡ addresses es ++ (p ∷ [])
addresses-append [] p c x = refl
addresses-append ((q, d, y) ∷ es) p c x = ap (λ ps. q ∷ ps) (addresses-append es p c x)

-- The nodes after the one at `p` is hung behind the last.
abbrev behind : (ℕ → DpcNode) → ℕ → ℕ → ℕ → DpcNode
behind nodes l p = write nodes l (record (nodes l) { next = p })

Linked-behind :
    (nodes : ℕ → DpcNode) (p c x : ℕ) (e : Waiting) (es : List Waiting)
    → p ≢ 0
    → c ≢ 0
    → nodes p ≡ record { callback = c; context = x; next = 0 }
    → NotIn p (addresses (e ∷ es))
    → Distinct (addresses (e ∷ es))
    → Linked nodes (e ∷ es)
    → Linked (behind nodes (last (e ∷ es)) p) ((e ∷ es) ++ ((p, c, x) ∷ []))
Linked-behind nodes p c x (q, d, y) [] p_ne c_ne at out apart k = (
  k.0,
  k.1,
  rw (write_self nodes q (record (nodes q) { next = p }), k.2) refl,
  (p_ne, c_ne, rw (write_ne nodes q (record (nodes q) { next = p }) p (λ e. out.0 (sym e))) at, tt),
)
Linked-behind nodes p c x (q, d, y) (e ∷ es) p_ne c_ne at out apart k =
    let l = last (e ∷ es) in
    (
      k.0,
      k.1,
      rw (write_ne nodes l (record (nodes l) { next = p }) q (last-ne q e es apart.0)) k.2,
      Linked-behind nodes p c x e es p_ne c_ne at out.1 apart.1 k.3,
    )

-- A call at a new address waits behind the others.
pub IsPending-appended :
    (b : Kprcb) (nodes : ℕ → DpcNode) (p c x : ℕ) (es : List Waiting)
    → p ≢ 0
    → c ≢ 0
    → NotIn p (addresses es)
    → IsPending b nodes es
    → IsPending
        (appended b p)
        (hung nodes b p (record { callback = c; context = x; next = 0 }))
        (es ++ ((p, c, x) ∷ []))
unfolding appended hung
IsPending-appended b nodes p c x [] p_ne c_ne out h =
    let node : DpcNode = record { callback = c; context = x; next = 0 } in
    rw (h.head_is) (record {
      head_is = refl;
      tail_is = refl;
      count_is = omega (arith, h.count_is);
      links = (p_ne, c_ne, write_self nodes p node, tt);
      distinct = (tt, tt);
    })
IsPending-appended b nodes p c x ((q, d, y) ∷ es) p_ne c_ne out h =
    let node : DpcNode = record { callback = c; context = x; next = 0 } in
    let busy : (b.dpc_queue_head == 0) ≡ false = ground (arith, h.head_is, h.links.0) in
    let kept = Linked-write nodes p node ((q, d, y) ∷ es) out h.links in
    rw (busy, h.tail_is)
      (record {
        head_is = h.head_is;
        tail_is = sym (last-append ((q, d, y) ∷ es) p c x);
        count_is = omega (arith, h.count_is, length-append ((q, d, y) ∷ es) ((p, c, x) ∷ []));
        links =
            Linked-behind (write nodes p node) p c x (q, d, y) es p_ne c_ne
              (write_self nodes p node) out h.distinct kept;
        distinct =
            subst Distinct (sym (addresses-append ((q, d, y) ∷ es) p c x))
              (Distinct-append (q ∷ addresses es) p h.distinct out);
      })

-- Behind the first call wait the others.
IsPending-unlinked :
    (b : Kprcb) (nodes : ℕ → DpcNode) (p c x : ℕ) (es : List Waiting)
    → IsPending b nodes ((p, c, x) ∷ es)
    → IsPending (unlinked b (start es)) nodes es
unfolding unlinked
IsPending-unlinked b nodes p c x [] h = record {
  head_is = refl;
  tail_is = refl;
  count_is = omega (arith, h.count_is);
  links = tt;
  distinct = tt;
}
IsPending-unlinked b nodes p c x ((q, d, y) ∷ es) h =
    let ne : q ≢ 0 = h.links.3.0 in
    record {
      head_is = refl;
      tail_is = ground (arith, h.tail_is);
      count_is = omega (arith, h.count_is);
      links = h.links.3;
      distinct = h.distinct.1;
    }

-- The rest of the program after the calls have run, in order.
abbrev pub runs {ℓ} : {W : Type ℓ} → (ℕ → ℕ → W → W) → List Waiting → W → W
runs effect [] w = w
runs effect ((p, c, x) ∷ es) w = runs effect es (effect c x w)

-- The callbacks leave the processor's queue and the heap as they are.
abbrev pub Quiet {ℓ} : {W : Type ℓ} → (ℕ → ℕ → W → W) → Callback W → Type ℓ
Quiet effect call = (c x : ℕ) (l : Local) (w : _) → call c x l w ≡ (l, effect c x w)

abbrev pub emptied : Kpcr → Kpcr
emptied k = record k {
  embedded_prcb = record k.embedded_prcb {
    dpc_queue_head = 0;
    dpc_queue_tail = 0;
    dpc_queue_count = 0;
  };
}

abbrev pub rest_of : Kpcr → List Waiting → Kpcr
rest_of k es = record k { embedded_prcb = unlinked k.embedded_prcb (start es) }

run_first-next {ℓ} :
    {W : Type ℓ} (effect : ℕ → ℕ → W → W) (call : Callback W) (k : Kpcr) (l : Local) (w : W)
    (p c x : ℕ) (es : List Waiting)
    → Quiet effect call
    → IsPending k.embedded_prcb l.nodes ((p, c, x) ∷ es)
    → run_first call k l w
      ≡ (record l { kpcr = some (rest_of k es); heap = kfree l.heap p }, effect c x w)
unfolding run_first
run_first-next effect call k l w p c x es quiet h =
    let some_call : (c == 0) ≡ false = ground (arith, h.links.1) in
    rw (run_first, h.head_is, h.links.2, some_call, quiet) refl

emptied-none : (k : Kpcr) (nodes : ℕ → DpcNode) → IsPending k.embedded_prcb nodes [] → k ≡ emptied k
emptied-none k nodes h = λ i. record k {
  embedded_prcb = record k.embedded_prcb {
    dpc_queue_head = h.head_is i;
    dpc_queue_tail = h.tail_is i;
    dpc_queue_count = h.count_is i;
  };
}

-- Where the calls of the list wait and the callbacks are quiet, the flush with fuel for as many turns
-- empties the queue, leaves all else of the control region and the nodes as they are, and runs the calls
-- of the list in order, each once.
pub flush_dpc_queue-runs {ℓ} :
    {W : Type ℓ} (effect : ℕ → ℕ → W → W) (call : Callback W) (fuel : ℕ) (k : Kpcr) (l : Local)
    (w : W) (es : List Waiting)
    → Quiet effect call
    → l.kpcr ≡ some k
    → length es ≤ fuel
    → IsPending k.embedded_prcb l.nodes es
    → let (l', w') = flush_dpc_queue fuel call l w in
      (l'.kpcr ≡ some (emptied k)) × (l'.nodes ≡ l.nodes) × (w' ≡ runs effect es w)
unfolding flush_dpc_queue unlinked
flush_dpc_queue-runs effect call zero k l w [] quiet at enough h =
    (at ∙ ap some (emptied-none k l.nodes h), refl, refl)
flush_dpc_queue-runs effect call zero k l w (e ∷ es) quiet at enough h =
    absurd (omega (arith, enough))
flush_dpc_queue-runs effect call (suc fuel) k l w [] quiet at enough h =
    rw (flush_dpc_queue, at, h.head_is) (at ∙ ap some (emptied-none k l.nodes h), refl, refl)
flush_dpc_queue-runs effect call (suc fuel) k l w ((p, c, x) ∷ es) quiet at enough h =
    let turn = run_first-next effect call k l w p c x es quiet h in
    let busy : (k.embedded_prcb.dpc_queue_head == 0) ≡ false =
      ground (arith, h.head_is, h.links.0) in
    let l1 : Local = record l { kpcr = some (rest_of k es); heap = kfree l.heap p } in
    rw (flush_dpc_queue, at, busy, turn)
      (flush_dpc_queue-runs effect call fuel (rest_of k es) l1 (effect c x w) es quiet refl
        (omega (arith, enough)) (IsPending-unlinked k.embedded_prcb l.nodes p c x es h))
