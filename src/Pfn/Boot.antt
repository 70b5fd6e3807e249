-- ===== src/Pfn/Boot.antt =====
-- pfn_database_init of kernel/mm/vmm.c: the free list that it builds, and what it keeps out of it.
use operating_system_sctrach.Common.{
  ℕ, zero, suc, ◌+◌, ◌-◌, ◌*◌, ◌/◌, ◌%◌, ◌^◌, ◌≤◌, ◌<◌, ◌≡◌, refl, sym, ap, ◌∙◌, ◌≢◌, ◌⊎◌, inl, inr,
  Bool, true, false, List, [], ◌∷◌, some, arith, All, Bool-cases, leb, ltb, ◌&&◌, ==_ne,
  if◌then◌else◌,
}
use operating_system_sctrach.Common.Memory.{write, write_self}
use operating_system_sctrach.Pfn.{
  Pmm, PfnEntry, PfnState, free, kernel, firmware, no_pfn, page_size, BootInfo, Descriptor,
  mark_low, mark_kernel, kernel_start, kernel_pages, entries, max_phys, database_home, mark,
  blank_database, mark_region, mark_regions, build_free_list, classify, pfn_database_init, is_free,
  region_state,
}
use operating_system_sctrach.Pfn.Chain.{NotIn, IsListed, HasFree, Chain-write, All-write}

module _ (s : PfnState) where
  mark-ref :
      (start n : ℕ) (db : ℕ → PfnEntry) (q : ℕ) → (mark s start n db q).ref_count ≡ (db q).ref_count
  unfolding mark write
  mark-ref start zero db q = refl
  mark-ref start (suc n) db q =
      ground (arith, mark-ref (start + 1) n (write db start (record (db start) { state = s })) q)

  -- The frames of the range get the state, and no other frame changes.
  mark-state :
      (start n : ℕ) (db : ℕ → PfnEntry) (q : ℕ)
      → (mark s start n db q).state ≡ (if leb start q && ltb q (start + n) then s else (db q).state)
  unfolding mark write
  mark-state start zero db q = ground arith
  mark-state start (suc n) db q =
      ground (arith, mark-state (start + 1) n (write db start (record (db start) { state = s })) q)

blank_database-ref :
    (n : ℕ) (db : ℕ → PfnEntry) (q : ℕ) → q < n → (blank_database n db q).ref_count ≡ 0
unfolding blank_database write
blank_database-ref zero db q h = absurd (omega arith)
blank_database-ref (suc n) db q h = ground (arith, blank_database-ref n db q)

mark_regions-ref :
    (count : ℕ) (ds : List Descriptor) (db : ℕ → PfnEntry) (q : ℕ)
    → (mark_regions count ds db q).ref_count ≡ (db q).ref_count
unfolding mark_regions mark_region
mark_regions-ref count [] db q = refl
mark_regions-ref count (d ∷ ds) db q =
    mark_regions-ref count ds (mark_region count d db) q ∙ mark-ref (region_state d.kind) _ _ db q

classify-ref :
    (boot : BootInfo) (count home db_pages : ℕ) (db : ℕ → PfnEntry) (q : ℕ)
    → q < count
    → (classify boot count home db_pages db q).ref_count ≡ 0
unfolding classify
classify-ref boot count home db_pages db q h =
    let d0 = blank_database count db in
    let d1 = mark_regions count (entries boot.memory_map) d0 in
    let d2 = mark_low count d1 in
    let d3 = mark_kernel boot count d2 in
    mark-ref kernel _ _ d3 q
    ∙ mark-ref kernel _ _ d2 q
    ∙ mark-ref firmware _ _ d1 q
    ∙ mark_regions-ref count (entries boot.memory_map) d0 q
    ∙ blank_database-ref count db q h

-- What step 8 does at a free frame.
abbrev linked : ℕ → Pmm → Pmm
linked p m = record m {
  database = write m.database p (record (m.database p) { next_free = m.free_head });
  free_head = p % 2 ^ 32;
  free_count = (m.free_count + 1) % 2 ^ 64;
}

linked-state : (p : ℕ) (m : Pmm) (q : ℕ) → ((linked p m).database q).state ≡ (m.database q).state
unfolding write
linked-state p m q = ground arith

linked-ref :
    (p : ℕ) (m : Pmm) (q : ℕ) → ((linked p m).database q).ref_count ≡ (m.database q).ref_count
unfolding write
linked-ref p m q = ground arith

-- Step 8 changes no state and not the number of frames.
build-state :
    (p n : ℕ) (m : Pmm) (q : ℕ) → ((build_free_list p n m).database q).state ≡ (m.database q).state
unfolding build_free_list
build-state p zero m q = refl
build-state p (suc n) m q = elim (Bool-cases (is_free (m.database p).state)) [
  | inl e ↦ rw (e, build_free_list) (build-state (p + 1) n (linked p m) q ∙ linked-state p m q)
  | inr e ↦ rw (e, build_free_list) (build-state (p + 1) n m q)
]

is_free_eq : (s : PfnState) → is_free s ≡ true → s ≡ free
is_free_eq s h = ground arith

below-NotIn : (p : ℕ) (xs : List ℕ) → All (λ x. x < p) xs → NotIn p xs
below-NotIn p [] h = tt
below-NotIn p (x ∷ xs) h = ((λ e. omega (arith, h.0)), below-NotIn p xs h.1)

below-suc : (p : ℕ) (xs : List ℕ) → All (λ x. x < p) xs → All (λ x. x < p + 1) xs
below-suc p [] h = tt
below-suc p (x ∷ xs) h = (omega (arith, h.0), below-suc p xs h.1)

linked-HasFree :
    (p : ℕ) (m : Pmm) (xs : List ℕ)
    → 0 < p
    → p < m.pfn_count
    → (m.database p).state ≡ free
    → (m.database p).ref_count ≡ 0
    → All (λ x. x < p) xs
    → HasFree m xs
    → HasFree (linked p m) (p ∷ xs)
linked-HasFree p m xs pos_p lt st ref below f =
    let out = below-NotIn p xs below in
    record {
      chain = (
        omega (arith, f.small),
        rw (write_self m.database p _) (Chain-write m.database p _ m.free_head xs out f.chain),
      );
      listed = (
        record {
          above_zero = pos_p;
          below = lt;
          unowned = rw (write_self m.database p _) st;
          unshared = rw (write_self m.database p _) ref;
        },
        All-write m.database p _ m.pfn_count xs out f.listed,
      );
      distinct = (out, f.distinct);
      counted = omega (arith, f.counted);
      small = f.small;
    }

build-HasFree :
    (p n : ℕ) (m : Pmm) (xs : List ℕ)
    → 0 < p
    → p + n ≤ m.pfn_count
    → ((q : ℕ) → q < m.pfn_count → (m.database q).ref_count ≡ 0)
    → All (λ x. x < p) xs
    → HasFree m xs
    → (ys : List ℕ) × HasFree (build_free_list p n m) ys
unfolding build_free_list
build-HasFree p zero m xs pos_p fits refs below f = (xs, f)
build-HasFree p (suc n) m xs pos_p fits refs below f =
    elim (Bool-cases (is_free (m.database p).state)) [
      | inl e ↦ rw e (
          build-HasFree (p + 1) n (linked p m) (p ∷ xs) (omega arith) (omega arith)
            (λ q h. linked-ref p m q ∙ refs q h) (omega arith, below-suc p xs below)
            (linked-HasFree p m xs pos_p (omega arith) (is_free_eq (m.database p).state e)
              (refs p (omega arith)) below f))
      | inr e ↦
          rw e
            (build-HasFree (p + 1) n m xs (omega arith) (omega arith) refs (below-suc p xs below) f)
    ]

-- A frame that may be handed out: above 1 MB, outside the kernel image and the database.
pub record IsSpare (boot : BootInfo) (home db_pages x : ℕ) : Type 0 where
  pub above_low : 256 ≤ x
  pub outside_kernel : (x < kernel_start boot) ⊎ (kernel_start boot + kernel_pages boot ≤ x)
  pub outside_database :
      (x < home / page_size % 2 ^ 32) ⊎ (home / page_size % 2 ^ 32 + db_pages ≤ x)

kernel_not_free : kernel ≢ free
kernel_not_free e = cc

-- A frame that is free after a marking by another state is outside the marked range.
not_marked :
    (s : PfnState) (start n : ℕ) (db : ℕ → PfnEntry) (q : ℕ)
    → s ≢ free
    → (mark s start n db q).state ≡ free
    → ((q < start) ⊎ (start + n ≤ q)) × ((db q).state ≡ free)
not_marked s start n db q ne st =
    go (leb start q && ltb q (start + n)) refl (mark-state s start n db q)
  where
    go :
        (b : Bool)
        → (leb start q && ltb q (start + n)) ≡ b
        → (mark s start n db q).state ≡ (if b then s else (db q).state)
        → ((q < start) ⊎ (start + n ≤ q)) × ((db q).state ≡ free)
    go true e m = absurd (ne (sym m ∙ st))
    go false e m = (ground arith, sym m ∙ st)

classify-IsSpare :
    (boot : BootInfo) (count home db_pages : ℕ) (db : ℕ → PfnEntry) (x : ℕ)
    → count ≤ no_pfn
    → kernel_start boot + kernel_pages boot < 2 ^ 32
    → x < count
    → (classify boot count home db_pages db x).state ≡ free
    → IsSpare boot home db_pages x
unfolding classify
classify-IsSpare boot count home db_pages db x small room lt st =
    let d1 = mark_regions count (entries boot.memory_map) (blank_database count db) in
    let d2 = mark_low count d1 in
    let d3 = mark_kernel boot count d2 in
    let home_out = not_marked kernel _ _ d3 x kernel_not_free st in
    let kern_out = not_marked kernel _ _ d2 x kernel_not_free home_out.1 in
    let low_out = not_marked firmware _ _ d1 x (λ e. cc) kern_out.1 in
    record {
      above_low = ground (arith, low_out.0);
      outside_kernel = ground (arith, kern_out.0);
      outside_database = ground (arith, home_out.0);
    }

All-IsSpare :
    (p m : Pmm) (boot : BootInfo) (home db_pages : ℕ) (db : ℕ → PfnEntry) (xs : List ℕ)
    → m.pfn_count ≤ no_pfn
    → kernel_start boot + kernel_pages boot < 2 ^ 32
    → p.pfn_count ≡ m.pfn_count
    → m.database ≡ classify boot m.pfn_count home db_pages db
    → ((q : ℕ) → (p.database q).state ≡ (m.database q).state)
    → All (IsListed p.database p.pfn_count) xs
    → All (IsSpare boot home db_pages) xs
All-IsSpare p m boot home db_pages db [] small room c d same h = tt
All-IsSpare p m boot home db_pages db (x ∷ xs) small room c d same h = (
  classify-IsSpare boot m.pfn_count home db_pages db x small room (omega (arith, h.0.below))
      (ap (λ (f : ℕ → PfnEntry). (f x).state) (sym d) ∙ sym (same x) ∙ h.0.unowned),
  All-IsSpare p m boot home db_pages db xs small room c d same h.1,
)

build-count : (p n : ℕ) (m : Pmm) → (build_free_list p n m).pfn_count ≡ m.pfn_count
unfolding build_free_list
build-count p zero m = refl
build-count p (suc n) m = elim (Bool-cases (is_free (m.database p).state)) [
  | inl e ↦ rw (e, build_free_list) (build-count (p + 1) n (linked p m))
  | inr e ↦ rw (e, build_free_list) (build-count (p + 1) n m)
]

-- The number of frames, the pages of the database and its place, as the boot block gives them.
abbrev pub frame_count : BootInfo → ℕ
frame_count boot = max_phys (entries boot.memory_map) 0 / page_size

abbrev pub home_pages : BootInfo → ℕ
home_pages boot = (frame_count boot * 8 + page_size - 1) / page_size

abbrev pub home_of : BootInfo → ℕ
home_of boot = database_home (entries boot.memory_map) (home_pages boot)

-- When a region can hold the database, frame numbers fit in 32 bits and the kernel image ends below
-- 2 ^ 32 frames, `pfn_database_init` leaves a well-formed free list: distinct free frames with no
-- references, counted by the free count. Each frame of the list lies above 1 MB, outside the kernel
-- image and outside the database's own pages.
pub pfn_database_init-HasFree :
    (boot : BootInfo) (p : Pmm)
    → home_of boot ≢ 0
    → 0 < frame_count boot
    → frame_count boot ≤ no_pfn
    → kernel_start boot + kernel_pages boot < 2 ^ 32
    → (xs : List ℕ) × HasFree (pfn_database_init (some boot) p) xs
      × All (IsSpare boot (home_of boot) (home_pages boot)) xs
unfolding pfn_database_init
pfn_database_init-HasFree boot p found some_frames small room =
    let count = frame_count boot in
    let m : Pmm = record p {
      database = classify boot count (home_of boot) (home_pages boot) p.database;
      pfn_count = count;
      free_head = no_pfn;
      free_count = 0;
      total_bytes = max_phys (entries boot.memory_map) 0;
    } in
    let built =
      build-HasFree 1 (count - 1) m [] (omega arith) (omega arith)
        (λ q h. classify-ref boot count (home_of boot) (home_pages boot) p.database q h) tt
        (record { chain = refl; listed = tt; distinct = tt; counted = refl; small = small }) in
    rw (==_ne (home_of boot) 0 found) (
      built.0,
      built.1,
      All-IsSpare (build_free_list 1 (count - 1) m) m boot (home_of boot) (home_pages boot)
          p.database built.0 small room (build-count 1 (count - 1) m) refl
          (build-state 1 (count - 1) m) built.1.listed,
    )
