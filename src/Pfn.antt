-- ===== src/Pfn.antt =====
-- The physical frame allocator of kernel/mm/vmm.h and vmm.c: the PFN database, its free list
-- threaded through `next_free`, and its construction from the boot loader's memory map
-- (shared/bootinfo.h). The database and physical memory are functions of a frame number and of an
-- address; the database is kept apart from the memory that it describes.
pub mod Chain
pub mod Alloc
pub mod Clients
pub mod Boot
mod Tests
use operating_system_sctrach.Common.{
  ℕ, zero, suc, ◌+◌, ◌-◌, ◌*◌, ◌/◌, ◌%◌, ◌^◌, Bool, true, false, not, ◌&&◌, ◌||◌, List, [], ◌∷◌,
  Option, none, some, ltb, leb, ◌==◌, if◌then◌else◌, take,
}
use operating_system_sctrach.Common.Memory.{write}

abbrev pub page_size : ℕ
page_size = 0x1000

-- The sentinel of an empty free list.
abbrev pub no_pfn : ℕ
no_pfn = 0xFFFFFFFF

pub data PfnState : Type 0 where
  free kernel user mmio firmware pagetable bad : PfnState

abbrev pub is_free : PfnState → Bool
is_free free = true
is_free _ = false

pub record PfnEntry : Type 0 where
  pub next_free : ℕ
  pub state : PfnState
  pub ref_count : ℕ
  pub flags : ℕ

pub record Pmm : Type 0 where
  pub database : ℕ → PfnEntry
  pub pfn_count : ℕ
  pub free_head : ℕ
  pub free_count : ℕ
  pub total_bytes : ℕ
  pub memory : ℕ → ℕ

-- `memset(page, 0, PAGE_SIZE_4K)`
unfoldable pub zero_page : (ℕ → ℕ) → ℕ → ℕ → ℕ
zero_page mem base a = if leb base a && ltb a (base + page_size) then 0 else mem a

-- `vmm_alloc_physical`; a `uint32_t` frame number times the page size does not wrap in 64 bits.
unfoldable pub alloc_physical : Pmm → Pmm × ℕ
alloc_physical p =
    if p.free_head == no_pfn
    then (p, 0)
    else let pfn = p.free_head in
      let e = p.database pfn in
      (
        record p {
          database =
              write p.database pfn (record e { next_free = no_pfn; state = kernel; ref_count = 1 });
          free_head = e.next_free;
          free_count = (p.free_count + 2 ^ 64 - 1) % 2 ^ 64;
          memory = zero_page p.memory (pfn * page_size);
        },
        pfn * page_size,
      )

-- The tail of `vmm_free_physical`: push the frame.
abbrev pub push_free : Pmm → ℕ → PfnEntry → Pmm
push_free p pfn e = record p {
  database = write p.database pfn (record e { state = free; next_free = p.free_head });
  free_head = pfn;
  free_count = (p.free_count + 1) % 2 ^ 64;
}

-- `ref_count` after `if (ref_count > 0) ref_count--`.
abbrev pub drop_ref : PfnEntry → PfnEntry
drop_ref e = if ltb 0 e.ref_count then record e { ref_count = e.ref_count - 1 } else e

unfoldable pub free_physical : Pmm → ℕ → Pmm
free_physical p phys_addr =
    let pfn = phys_addr / page_size % 2 ^ 32 in
    let e = drop_ref (p.database pfn) in
    if pfn == 0 || leb p.pfn_count pfn
    then p
    else if ltb 0 e.ref_count
    then record p { database = write p.database pfn e }
    else push_free p pfn e

-- UEFI memory types.
pub is_conventional_memory : ℕ → Bool
is_conventional_memory t = t == 3 || t == 4 || t == 7

pub is_reserved_firmware : ℕ → Bool
is_reserved_firmware t = t == 5 || t == 6 || t == 9 || t == 10 || t == 11 || t == 12

pub record Descriptor : Type 0 where
  pub kind : ℕ
  pub physical_start : ℕ
  pub number_of_pages : ℕ

-- `descriptors` is the table read at its stride `descriptor_size`, as far as memory goes.
pub record MemoryMap : Type 0 where
  pub descriptors : List Descriptor
  pub map_size : ℕ
  pub descriptor_size : ℕ

pub record BootInfo : Type 0 where
  pub memory_map : MemoryMap
  pub kernel_phys_base : ℕ
  pub kernel_size_bytes : ℕ

abbrev pub entries : MemoryMap → List Descriptor
entries m = take (m.map_size / m.descriptor_size) m.descriptors

-- Step 1: the end of the highest region.
pub max_phys : List Descriptor → ℕ → ℕ
max_phys [] best = best
max_phys (d ∷ ds) best =
    let end = (d.physical_start + d.number_of_pages * page_size) % 2 ^ 64 in
    max_phys ds (if ltb best end then end else best)

-- Step 2: the first conventional region above 1 MB with room for the database; 0 if there is none.
pub database_home : List Descriptor → ℕ → ℕ
database_home [] db_pages = 0
database_home (d ∷ ds) db_pages =
    if is_conventional_memory d.kind
      && (leb (db_pages + 1) d.number_of_pages && leb 0x100000 d.physical_start)
    then d.physical_start
    else database_home ds db_pages

-- Steps 3 to 7 set the state of the frames from `start` on, `n` of them.
pub mark : PfnState → ℕ → ℕ → (ℕ → PfnEntry) → ℕ → PfnEntry
mark s start zero db = db
mark s start (suc n) db = mark s (start + 1) n (write db start (record (db start) { state = s }))

abbrev pub blank_entry : PfnEntry
blank_entry = record { next_free = no_pfn; state = bad; ref_count = 0; flags = 0 }

-- Step 3, for the frames below the count.
pub blank_database : ℕ → (ℕ → PfnEntry) → ℕ → PfnEntry
blank_database zero db = db
blank_database (suc n) db = write (blank_database n db) n blank_entry

abbrev pub region_state : ℕ → PfnState
region_state t =
    if is_reserved_firmware t then firmware else if is_conventional_memory t then free else bad

-- Step 4, for one descriptor: the casts to `uint32_t`, and the end cut off at the count.
pub mark_region : ℕ → Descriptor → (ℕ → PfnEntry) → ℕ → PfnEntry
unfolding is_reserved_firmware is_conventional_memory
mark_region count d db =
    let start = d.physical_start / page_size % 2 ^ 32 in
    let end = (start + d.number_of_pages) % 2 ^ 32 in
    let stop = if ltb (count % 2 ^ 32) end then count % 2 ^ 32 else end in
    mark (region_state d.kind) start (stop - start) db

pub mark_regions : ℕ → List Descriptor → (ℕ → PfnEntry) → ℕ → PfnEntry
mark_regions count [] db = db
mark_regions count (d ∷ ds) db = mark_regions count ds (mark_region count d db)

-- Step 8, from frame `p` on, `n` frames.
pub build_free_list : ℕ → ℕ → Pmm → Pmm
build_free_list p zero m = m
build_free_list p (suc n) m = build_free_list (p + 1) n (
    if is_free (m.database p).state
    then record m {
      database = write m.database p (record (m.database p) { next_free = m.free_head });
      free_head = p % 2 ^ 32;
      free_count = (m.free_count + 1) % 2 ^ 64;
    }
    else m)

-- How many frames a loop `for (p = start; p < stop && p < count; p++)` passes.
abbrev pub clipped : ℕ → ℕ → ℕ → ℕ
clipped start stop count = (if ltb stop count then stop else count) - start

-- Step 5: frames below 1 MB.
abbrev pub mark_low : ℕ → (ℕ → PfnEntry) → ℕ → PfnEntry
mark_low count = mark firmware 0 (clipped 0 256 (count % 2 ^ 32))

abbrev pub kernel_start : BootInfo → ℕ
kernel_start boot = boot.kernel_phys_base / page_size % 2 ^ 32

abbrev pub kernel_pages : BootInfo → ℕ
kernel_pages boot = (boot.kernel_size_bytes + page_size - 1) % 2 ^ 64 / page_size % 2 ^ 32

-- Step 6: the frames of the kernel binary.
abbrev pub mark_kernel : BootInfo → ℕ → (ℕ → PfnEntry) → ℕ → PfnEntry
mark_kernel boot count = mark kernel (kernel_start boot) (
    clipped (kernel_start boot) ((kernel_start boot + kernel_pages boot) % 2 ^ 32) (count % 2 ^ 32))

-- Step 7: the frames of the database.
abbrev pub mark_database : ℕ → ℕ → ℕ → (ℕ → PfnEntry) → ℕ → PfnEntry
mark_database home db_pages count =
    let db_start = home / page_size % 2 ^ 32 in
    mark kernel db_start (clipped db_start (db_start + db_pages) (count % 2 ^ 32))

-- Steps 3 to 7: the database before the free list is built.
pub classify : BootInfo → ℕ → ℕ → ℕ → (ℕ → PfnEntry) → ℕ → PfnEntry
classify boot count home db_pages db = mark_database home db_pages count (
    mark_kernel boot count
      (mark_low count (mark_regions count (entries boot.memory_map) (blank_database count db))))

-- `pfn_database_init`; `none` is a NULL boot block or a NULL map.
pub pfn_database_init : Option BootInfo → Pmm → Pmm
pfn_database_init none p = p
pfn_database_init (some boot) p =
    let limit = max_phys (entries boot.memory_map) 0 in
    let count = limit / page_size in
    let db_pages = (count * 8 + page_size - 1) / page_size in
    let home = database_home (entries boot.memory_map) db_pages in
    let counted = record p {
      pfn_count = count;
      total_bytes = limit;
      free_head = no_pfn;
      free_count = 0;
    } in
    if home == 0
    then counted
    else build_free_list 1 (count - 1)
        (record counted { database = classify boot count home db_pages p.database })
