-- ===== src/Pfn/Tests.antt =====
-- Runs of the model of the frame allocator of kernel/mm/vmm.c, and its theorems at concrete states.
use operating_system_sctrach.Common.{
  ℕ, ◌≡◌, refl, ◌≢◌, List, [], ◌∷◌, arith, some, All, if◌then◌else◌, ◌==◌,
}
use operating_system_sctrach.Common.Memory.{write}
use operating_system_sctrach.Pfn.{
  Pmm, PfnEntry, free, kernel, no_pfn, alloc_physical, free_physical, pfn_database_init, BootInfo,
  blank_entry, max_phys, database_home, mark, blank_database, mark_regions, mark_region,
  build_free_list, classify, is_conventional_memory,
}
use operating_system_sctrach.Pfn.Chain.{HasFree}
use operating_system_sctrach.Pfn.Alloc.{taken, alloc_physical-pop, free_physical-twice}
use operating_system_sctrach.Pfn.Clients.{
  Owners, Reach, here, next, takes, IsExclusive, Reach-IsExclusive,
}
use operating_system_sctrach.Pfn.Boot.{IsSpare, home_of, home_pages, pfn_database_init-HasFree}

-- Four frames; 3 and 2 are free, in this order; 1 is shared by two.
abbrev frames : ℕ → PfnEntry
frames q =
    if q == 3
    then record { next_free = 2; state = free; ref_count = 0; flags = 0 }
    else if q == 2
    then record { next_free = no_pfn; state = free; ref_count = 0; flags = 0 }
    else if q == 1
    then record { next_free = no_pfn; state = kernel; ref_count = 2; flags = 0 }
    else blank_entry

abbrev small_machine : Pmm
small_machine = record {
  database = frames;
  pfn_count = 4;
  free_head = 3;
  free_count = 2;
  total_bytes = 0x4000;
  memory = λ a. 7;
}

small_machine-HasFree : HasFree small_machine (3 ∷ 2 ∷ [])
small_machine-HasFree = record {
  chain = (refl, (refl, refl));
  listed = (
    record { above_zero = omega arith; below = omega arith; unowned = refl; unshared = refl },
    (record { above_zero = omega arith; below = omega arith; unowned = refl; unshared = refl }, tt),
  );
  distinct = (((λ e. omega arith), tt), (tt, tt));
  counted = refl;
  small = omega arith;
}

alloc_physical-pop_run :
    let (p', addr) = alloc_physical small_machine in
    (addr ≡ 0x3000) × (addr ≢ 0) × (p' ≡ taken small_machine 3) × HasFree p' (2 ∷ [])
alloc_physical-pop_run = alloc_physical-pop small_machine 3 (2 ∷ []) small_machine-HasFree

-- One frame free, the other on loan.
abbrev on_loan : Pmm
on_loan = record small_machine {
  database = λ q. if q == 3 then record blank_entry { state = kernel; ref_count = 1 } else frames q;
  free_head = 2;
  free_count = 1;
}

on_loan-HasFree : HasFree on_loan (2 ∷ [])
on_loan-HasFree = record {
  chain = (refl, refl);
  listed = (
    record { above_zero = omega arith; below = omega arith; unowned = refl; unshared = refl },
    tt,
  );
  distinct = (tt, tt);
  counted = refl;
  small = omega arith;
}

free_physical-twice_example :
    let (a, first) = alloc_physical (free_physical small_machine 0x3000) in
    let (b, second) = alloc_physical a in (first ≡ 0x3000) × (second ≡ 0x3000)
free_physical-twice_example = free_physical-twice small_machine 3 (2 ∷ []) small_machine-HasFree

abbrev nobody : Owners
nobody = record { pmm = small_machine; held = [] }

abbrev one_taken : Owners
one_taken = record { pmm = taken small_machine 3; held = 3 ∷ [] }

one_step : Reach nobody one_taken
unfolding alloc_physical
one_step = next here (takes 0x3000 refl (λ e. omega arith) refl)

Reach-IsExclusive_example : IsExclusive one_taken
Reach-IsExclusive_example =
    Reach-IsExclusive one_step
      (record { frames = 3 ∷ 2 ∷ []; has_free = small_machine-HasFree; owned = tt; distinct = tt })

-- 1 MB of low memory, then 16 conventional pages; the kernel image is one page at 0x103000.
abbrev boot : BootInfo
boot = record {
  memory_map = record {
    descriptors =
        record { kind = 7; physical_start = 0; number_of_pages = 256 }
        ∷ record { kind = 7; physical_start = 0x100000; number_of_pages = 16 }
        ∷ [];
    map_size = 80;
    descriptor_size = 40;
  };
  kernel_phys_base = 0x103000;
  kernel_size_bytes = 4096;
}

-- The free list starts at the last frame; the database takes one page, the kernel one.
boot_free_count : (pfn_database_init (some boot) small_machine).free_count ≡ 14
unfolding pfn_database_init max_phys database_home mark blank_database mark_regions mark_region
    build_free_list classify write is_conventional_memory
boot_free_count = refl

pfn_database_init-HasFree_example :
    (xs : List ℕ) × HasFree (pfn_database_init (some boot) small_machine) xs
    × All (IsSpare boot (home_of boot) (home_pages boot)) xs
unfolding max_phys database_home is_conventional_memory
pfn_database_init-HasFree_example =
    pfn_database_init-HasFree boot small_machine (λ e. omega arith) (omega arith) (omega arith)
      (omega arith)
