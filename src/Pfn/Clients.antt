-- ===== src/Pfn/Clients.antt =====
-- Clients of the frame allocator of kernel/mm/vmm.c that free only frames that they hold.
use operating_system_sctrach.Common.{
  ℕ, ◌*◌, ◌/◌, ◌<◌, ◌≡◌, refl, sym, ap, subst, ◌∙◌, ◌≢◌, inr, List, [], ◌∷◌, ◌++◌, arith, All,
  All-left, All-right, All-append,
}
use operating_system_sctrach.Common.Memory.{write, write_self, write_ne}
use operating_system_sctrach.Pfn.{Pmm, PfnEntry, page_size, alloc_physical, free_physical}
use operating_system_sctrach.Pfn.Chain.{NotIn, Distinct, IsListed, HasFree, NotIn-of_owned}
use operating_system_sctrach.Pfn.Alloc.{
  alloc_physical-pop, alloc_physical-empty, free_physical-push, free_physical-eq_pushed, taken,
  pushed,
}

-- The allocator, and the frames that its clients hold.
pub record Owners : Type 0 where
  pub pmm : Pmm
  pub held : List ℕ

-- An allocation that gives a frame, one that fails, or the release of a frame that is held.
pub data Step (s t : Owners) : Type 0 where
  takes :
      (addr : ℕ)
      → alloc_physical s.pmm ≡ (t.pmm, addr)
      → addr ≢ 0
      → t.held ≡ (addr / page_size) ∷ s.held
      → Step s t
  fails : alloc_physical s.pmm ≡ (t.pmm, 0) → t.held ≡ s.held → Step s t
  releases :
      (before : List ℕ) (x : ℕ) (after : List ℕ)
      → s.held ≡ before ++ (x ∷ after)
      → t.pmm ≡ free_physical s.pmm (x * page_size)
      → t.held ≡ before ++ after
      → Step s t

pub data Reach (s : Owners) : Owners → Type 0 where
  here : Reach s s
  next : {t u : Owners} → Reach s t → Step t u → Reach s u

-- A frame that a client holds is a frame of the machine with one reference.
abbrev pub IsHeld : Pmm → ℕ → Type 0
IsHeld p x = (0 < x) × (x < p.pfn_count) × ((p.database x).ref_count ≡ 1)

pub record IsExclusive (s : Owners) : Type 0 where
  pub frames : List ℕ
  pub has_free : HasFree s.pmm frames
  pub owned : All (IsHeld s.pmm) s.held
  pub distinct : Distinct s.held

IsHeld-write :
    (p q : Pmm) (x : ℕ) (e : PfnEntry) (xs : List ℕ)
    → q.database ≡ write p.database x e
    → q.pfn_count ≡ p.pfn_count
    → NotIn x xs
    → All (IsHeld p) xs
    → All (IsHeld q) xs
IsHeld-write p q x e [] d c out h = tt
IsHeld-write p q x e (y ∷ ys) d c out h = (
  (h.0.0, rw c h.0.1, rw (d, write_ne p.database x e y out.0) h.0.2),
  IsHeld-write p q x e ys d c out.1 h.1,
)

-- A frame of the free list is held by nobody.
free_not_held :
    (p : Pmm) (x : ℕ) (xs : List ℕ)
    → IsListed p.database p.pfn_count x
    → All (IsHeld p) xs
    → NotIn x xs
free_not_held p x [] l h = tt
free_not_held p x (y ∷ ys) l h = (λ e. clash e h.0.2, free_not_held p x ys l h.1)
  where
    clash : y ≡ x → (p.database y).ref_count ≡ 1 → ⊥
    clash e r = omega (arith, l.unshared, r, ap (λ (z : ℕ). (p.database z).ref_count) e)

Distinct-remove :
    (before : List ℕ) (x : ℕ) (after : List ℕ)
    → Distinct (before ++ (x ∷ after))
    → NotIn x (before ++ after) × Distinct (before ++ after)
Distinct-remove [] x after d = d
Distinct-remove (b ∷ bs) x after d =
    let rest = Distinct-remove bs x after d.1 in
    let out = All-right (λ y. y ≢ b) bs (x ∷ after) d.0 in
    (
      (λ e. out.0 (sym e), rest.0),
      (All-append (λ y. y ≢ b) bs after (All-left (λ y. y ≢ b) bs (x ∷ after) d.0) out.1, rest.1),
    )

takes-IsExclusive :
    (s t : Owners) (addr : ℕ) (xs : List ℕ)
    → alloc_physical s.pmm ≡ (t.pmm, addr)
    → addr ≢ 0
    → t.held ≡ (addr / page_size) ∷ s.held
    → HasFree s.pmm xs
    → All (IsHeld s.pmm) s.held
    → Distinct s.held
    → IsExclusive t
takes-IsExclusive s t addr [] e some_addr grown f owned d =
    absurd (some_addr (ap (λ (r : Pmm × ℕ). r.1) (sym e ∙ alloc_physical-empty s.pmm f)))
takes-IsExclusive s t addr (x ∷ xs) e some_addr grown f owned d =
    let (at, pos_at, state, rest) = alloc_physical-pop s.pmm x xs f in
    let now : t.pmm ≡ taken s.pmm x = ap (λ (r : Pmm × ℕ). r.0) (sym e) ∙ state in
    let frame : addr / page_size ≡ x = omega (arith, ap (λ (r : Pmm × ℕ). r.1) (sym e), at) in
    let free_x = free_not_held s.pmm x s.held f.listed.0 owned in
    record {
      frames = xs;
      has_free = rw (← ap (λ (r : Pmm × ℕ). r.0) e) rest;
      owned =
          rw (grown, frame)
            (subst (λ (q : Pmm). IsHeld q x × All (IsHeld q) s.held) (sym now)
              (
                (f.listed.0.above_zero, f.listed.0.below, rw (write_self s.pmm.database x _)),
                IsHeld-write s.pmm (taken s.pmm x) x _ s.held refl refl free_x owned,
              ));
      distinct = rw (grown, frame) (free_x, d);
    }

fails-IsExclusive :
    (s t : Owners) (xs : List ℕ)
    → alloc_physical s.pmm ≡ (t.pmm, 0)
    → t.held ≡ s.held
    → HasFree s.pmm xs
    → All (IsHeld s.pmm) s.held
    → Distinct s.held
    → IsExclusive t
fails-IsExclusive s t [] e same f owned d =
    let now : t.pmm ≡ s.pmm = ap (λ (r : Pmm × ℕ). r.0) (sym e ∙ alloc_physical-empty s.pmm f) in
    record {
      frames = [];
      has_free = subst (λ (q : Pmm). HasFree q []) (sym now) f;
      owned = rw same (subst (λ (q : Pmm). All (IsHeld q) s.held) (sym now) owned);
      distinct = rw same d;
    }
fails-IsExclusive s t (x ∷ xs) e same f owned d =
    let (at, pos_at, state, rest) = alloc_physical-pop s.pmm x xs f in
    absurd (pos_at (ap (λ (r : Pmm × ℕ). r.1) e))

releases-IsExclusive :
    (s t : Owners) (before : List ℕ) (x : ℕ) (after : List ℕ)
    → s.held ≡ before ++ (x ∷ after)
    → t.pmm ≡ free_physical s.pmm (x * page_size)
    → t.held ≡ before ++ after
    → IsExclusive s
    → IsExclusive t
releases-IsExclusive s t before x after e now less v =
    let owned = rw e at v.owned in
    let mine = (All-right (IsHeld s.pmm) before (x ∷ after) owned).0 in
    let apart = Distinct-remove before x after (rw e at v.distinct) in
    let others =
      All-append (IsHeld s.pmm) before after (All-left (IsHeld s.pmm) before (x ∷ after) owned)
        (All-right (IsHeld s.pmm) before (x ∷ after) owned).1 in
    record {
      frames = x ∷ v.frames;
      has_free = rw now (
          free_physical-push s.pmm x v.frames v.has_free mine.0 mine.1 (omega (arith, mine.2)) (
            NotIn-of_owned s.pmm.database s.pmm.pfn_count x v.frames (inr (omega (arith, mine.2)))
              v.has_free.listed));
      owned = rw less (
          subst (λ (q : Pmm). All (IsHeld q) (before ++ after))
            (sym (
              now
              ∙ free_physical-eq_pushed s.pmm x mine.0 mine.1 v.has_free.small
                  (omega (arith, mine.2))))
            (IsHeld-write s.pmm (pushed s.pmm x) x _ (before ++ after) refl refl apart.0 others));
      distinct = rw less apart.1;
    }

Step-IsExclusive : {s t : Owners} → Step s t → IsExclusive s → IsExclusive t
Step-IsExclusive {s} {t} (takes addr e some_addr grown) v =
    takes-IsExclusive s t addr v.frames e some_addr grown v.has_free v.owned v.distinct
Step-IsExclusive {s} {t} (fails e same) v =
    fails-IsExclusive s t v.frames e same v.has_free v.owned v.distinct
Step-IsExclusive {s} {t} (releases before x after e now less) v =
    releases-IsExclusive s t before x after e now less v

-- However clients that release only frames they hold interleave allocations and releases, no two
-- of them hold the same frame, no frame that is held stands in the free list, and every held frame
-- has one reference.
pub Reach-IsExclusive : {s t : Owners} → Reach s t → IsExclusive s → IsExclusive t
Reach-IsExclusive here v = v
Reach-IsExclusive (next r st) v = Step-IsExclusive st (Reach-IsExclusive r v)
