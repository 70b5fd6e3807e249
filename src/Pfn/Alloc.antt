-- ===== src/Pfn/Alloc.antt =====
-- vmm_alloc_physical and vmm_free_physical of kernel/mm/vmm.c are pop and push on the free list.
use operating_system_sctrach.Common.{
  ℕ, ◌+◌, ◌-◌, ◌*◌, ◌/◌, ◌%◌, ◌^◌, ◌≤◌, ◌<◌, ◌≡◌, refl, ◌≢◌, inr, List, [], ◌∷◌, arith, ==_ne,
}
use operating_system_sctrach.Common.Memory.{write, write_self}
use operating_system_sctrach.Pfn.{
  Pmm, free, kernel, no_pfn, page_size, alloc_physical, free_physical, zero_page,
}
use operating_system_sctrach.Pfn.Chain.{NotIn, HasFree, Chain-write, All-write, NotIn-of_owned}

-- The state after frame `x`, the head of the free list, is handed out.
abbrev pub taken : Pmm → ℕ → Pmm
taken p x = record p {
  database =
      write p.database x
        (record (p.database x) { next_free = no_pfn; state = kernel; ref_count = 1 });
  free_head = (p.database x).next_free;
  free_count = (p.free_count + 2 ^ 64 - 1) % 2 ^ 64;
  memory = zero_page p.memory (x * page_size);
}

taken-HasFree : (p : Pmm) (x : ℕ) (xs : List ℕ) → HasFree p (x ∷ xs) → HasFree (taken p x) xs
taken-HasFree p x xs f = record {
  chain = Chain-write p.database x _ (p.database x).next_free xs out (f.chain.1);
  listed = All-write p.database x _ p.pfn_count xs out f.listed.1;
  distinct = f.distinct.1;
  counted = omega (arith, f.counted);
  small = f.small;
}
  where
    flip : (ys : List ℕ) → NotIn x ys → NotIn x ys
    flip ys h = h

    out : NotIn x xs
    out = flip xs f.distinct.0

-- Allocation takes the head of the free list: it returns that frame's address, which is not 0, and
-- leaves the state `taken`, where the frame is the kernel's with one reference and its page is
-- zeroed; the free list is the rest of the list.
pub alloc_physical-pop :
    (p : Pmm) (x : ℕ) (xs : List ℕ)
    → HasFree p (x ∷ xs)
    → let (p', addr) = alloc_physical p in
      (addr ≡ x * page_size) × (addr ≢ 0) × (p' ≡ taken p x) × HasFree p' xs
unfolding alloc_physical
alloc_physical-pop p x xs f =
    let here = f.listed.0 in
    rw (f.chain.0, ==_ne x no_pfn (omega (arith, here.below, f.small)))
      (refl, omega (arith, here.above_zero), refl, taken-HasFree p x xs f)

-- With an empty free list allocation returns 0 and changes nothing.
pub alloc_physical-empty : (p : Pmm) → HasFree p [] → alloc_physical p ≡ (p, 0)
unfolding alloc_physical
alloc_physical-empty p f = ground (arith, f.chain)

-- The states that `vmm_free_physical` leaves: the frame is pushed, or has one reference less.
abbrev pub pushed : Pmm → ℕ → Pmm
pushed p x = record p {
  database =
      write p.database x
        (record (p.database x) { next_free = p.free_head; state = free; ref_count = 0 });
  free_head = x;
  free_count = (p.free_count + 1) % 2 ^ 64;
}

abbrev pub shared : Pmm → ℕ → Pmm
shared p x = record p {
  database =
      write p.database x (record (p.database x) { ref_count = (p.database x).ref_count - 1 });
}

module _ (p : Pmm) (x : ℕ) (pos_x : 0 < x) (below : x < p.pfn_count)
    (small : p.pfn_count ≤ no_pfn) where
  number : x * page_size / page_size % 2 ^ 32 ≡ x
  number = omega arith

  pub free_physical-eq_pushed :
      (p.database x).ref_count ≤ 1 → free_physical p (x * page_size) ≡ pushed p x
  unfolding free_physical
  free_physical-eq_pushed last = rw number (ground arith)

  pub free_physical-eq_shared :
      1 < (p.database x).ref_count → free_physical p (x * page_size) ≡ shared p x
  unfolding free_physical
  free_physical-eq_shared more = rw number (ground arith)

pushed-HasFree :
    (p : Pmm) (x : ℕ) (xs : List ℕ)
    → 0 < x
    → x < p.pfn_count
    → NotIn x xs
    → HasFree p xs
    → HasFree (pushed p x) (x ∷ xs)
pushed-HasFree p x xs pos_x below out f = record {
  chain = (
    refl,
    rw (write_self p.database x _) (Chain-write p.database x _ p.free_head xs out f.chain),
  );
  listed = (
    record {
      above_zero = pos_x;
      below = below;
      unowned = rw (write_self p.database x _);
      unshared = rw (write_self p.database x _);
    },
    All-write p.database x _ p.pfn_count xs out f.listed,
  );
  distinct = (out, f.distinct);
  counted = omega (arith, f.counted);
  small = f.small;
}

module _ (p : Pmm) (x : ℕ) (xs : List ℕ) (f : HasFree p xs) (pos_x : 0 < x)
    (below : x < p.pfn_count) where
  -- Freeing the last reference to a frame outside the free list pushes the frame onto the list.
  pub free_physical-push :
      (p.database x).ref_count ≤ 1 → NotIn x xs → HasFree (free_physical p (x * page_size)) (x ∷ xs)
  free_physical-push last out =
      rw (free_physical-eq_pushed p x pos_x below f.small last)
        (pushed-HasFree p x xs pos_x below out f)

  -- Freeing a frame that has other references drops one of them, and leaves the free list, the other
  -- frames and memory as they were.
  pub free_physical-shared :
      1 < (p.database x).ref_count
      → HasFree (free_physical p (x * page_size)) xs
        × (free_physical p (x * page_size) ≡ shared p x)
  free_physical-shared more = rw (free_physical-eq_shared p x pos_x below f.small more) (
    record {
      chain = Chain-write p.database x _ p.free_head xs out f.chain;
      listed = All-write p.database x _ p.pfn_count xs out f.listed;
      distinct = f.distinct;
      counted = f.counted;
      small = f.small;
    },
    refl,
  )
    where
      out : NotIn x xs
      out = NotIn-of_owned p.database p.pfn_count x xs (inr (omega arith)) f.listed

-- A frame that is freed twice is handed out twice: when the head of the free list is freed again,
-- the next two allocations return the same address.
pub free_physical-twice :
    (p : Pmm) (x : ℕ) (xs : List ℕ)
    → HasFree p (x ∷ xs)
    → let (a, first) = alloc_physical (free_physical p (x * page_size)) in
      let (b, second) = alloc_physical a in (first ≡ x * page_size) × (second ≡ x * page_size)
unfolding alloc_physical
free_physical-twice p x xs f =
    let here = f.listed.0 in
    rw
      (
        free_physical-eq_pushed p x here.above_zero here.below f.small
            (omega (arith, here.unshared)),
        ==_ne x no_pfn (omega (arith, here.below, f.small)),
        write_self p.database x _,
        f.chain.0,
      )
      (rw (==_ne x no_pfn (omega (arith, here.below, f.small))) (refl, refl))
