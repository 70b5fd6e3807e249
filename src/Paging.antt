-- ===== src/Paging.antt =====
-- The page tables of kernel/mm/vmm.c. A table is the address of its first word, and entry `i` of it
-- is the word of physical memory at its address plus `8 * i`; the kernel's identity map makes a
-- physical address a pointer. `flushed` lists the addresses given to `vmm_invlpg`.
pub mod Unmap
mod Tests
use operating_system_sctrach.Common.{
  ℕ, zero, suc, ◌+◌, ◌-◌, ◌*◌, ◌/◌, ◌%◌, ◌^◌, bit_or, bit_and, Bool, true, false, not, ltb, leb,
  ◌==◌, ◌&&◌, ◌||◌, if◌then◌else◌, Option, none, some, List, [], ◌∷◌,
}
use operating_system_sctrach.Common.Memory.{write}
use operating_system_sctrach.Pfn.{Pmm, BootInfo, alloc_physical, free_physical, page_size}
use operating_system_sctrach.Pfn.{pfn_database_init}

abbrev pub kernel_pool_base : ℕ
kernel_pool_base = 0xFFFFFF8000000000

abbrev pub page_size_2m : ℕ
page_size_2m = 0x200000

abbrev pub pte_writable : ℕ
pte_writable = 2

abbrev pub pte_user : ℕ
pte_user = 4

pub record Vmm : Type 0 where
  pub pmm : Pmm
  pub kernel_pml4 : ℕ
  pub pool_next : ℕ
  pub flushed : List ℕ

-- `PTE_PRESENT` and `PTE_HUGE`
abbrev pub is_present : ℕ → Bool
is_present e = e % 2 == 1

abbrev pub is_huge : ℕ → Bool
is_huge e = e / 128 % 2 == 1

-- `PTE_PHYS_ADDR`: bits 12 to 51.
abbrev pub pte_phys_addr : ℕ → ℕ
pte_phys_addr e = e / 4096 % 2 ^ 40 * 4096

-- The addresses of the four entries of `va`, from the tables that hold them.
abbrev pub pml4_entry : ℕ → ℕ → ℕ
pml4_entry t va = t + 8 * (va / 2 ^ 39 % 512)

abbrev pub pdpt_entry : ℕ → ℕ → ℕ
pdpt_entry t va = t + 8 * (va / 2 ^ 30 % 512)

abbrev pub pd_entry : ℕ → ℕ → ℕ
pd_entry t va = t + 8 * (va / 2 ^ 21 % 512)

abbrev pub pt_entry : ℕ → ℕ → ℕ
pt_entry t va = t + 8 * (va / 2 ^ 12 % 512)

abbrev pub set_word : Pmm → ℕ → ℕ → Pmm
set_word p a v = record p { memory = write p.memory a v }

-- The table that the entry at `a` points to, a new one where there is none; `none` when there is no
-- frame for it.
unfoldable pub table_at : Pmm → ℕ → ℕ → Pmm × Option ℕ
table_at p a flags =
    let e = p.memory a in
    let (p', frame) = alloc_physical p in
    let linked =
      set_word p' a (bit_or (bit_or (bit_or frame 1) pte_writable) (bit_and flags pte_user)) in
    if is_present e
    then (p, some (pte_phys_addr e))
    else if frame == 0
    then (p', none)
    else (linked, some frame)

-- The same for an entry of a page directory, which is no huge page any more.
unfoldable pub page_table_at : Pmm → ℕ → ℕ → Pmm × Option ℕ
page_table_at p a flags =
    let e = p.memory a in
    let cleared = e - e / 128 % 2 * 128 in
    let made = table_at p a flags in
    if is_present e then (set_word p a cleared, some (pte_phys_addr cleared)) else made

-- `vmm_map_page`; the result says whether it returned 0.
unfoldable pub map_page : Vmm → ℕ → ℕ → ℕ → ℕ → Vmm × Bool
map_page s pml4 va pa flags =
    let (p1, pdpt) = table_at s.pmm (pml4_entry pml4 va) flags in
    elim pdpt [
      | none ↦ (record s { pmm = p1 }, false)
      | some t1 ↦
          let (p2, pd) = table_at p1 (pdpt_entry t1 va) flags in
          elim pd [
            | none ↦ (record s { pmm = p2 }, false)
            | some t2 ↦
                let (p3, pt) = page_table_at p2 (pd_entry t2 va) flags in
                elim pt [
                  | none ↦ (record s { pmm = p3 }, false)
                  | some t3 ↦
                      let e = bit_or (bit_or (pa / 4096 * 4096) flags) 1 in
                      (
                        record s { pmm = set_word p3 (pt_entry t3 va) e; flushed = va ∷ s.flushed },
                        true,
                      )
                ]
          ]
    ]

-- The entries above the page table that a walk for `va` reads.
abbrev pub pdpt_of : (ℕ → ℕ) → ℕ → ℕ → ℕ
pdpt_of m pml4 va = pte_phys_addr (m (pml4_entry pml4 va))

abbrev pub pd_of : (ℕ → ℕ) → ℕ → ℕ → ℕ
pd_of m pml4 va = pte_phys_addr (m (pdpt_entry (pdpt_of m pml4 va) va))

abbrev pub pt_of : (ℕ → ℕ) → ℕ → ℕ → ℕ
pt_of m pml4 va = pte_phys_addr (m (pd_entry (pd_of m pml4 va) va))

unfoldable pub unmap_page : Vmm → ℕ → ℕ → Vmm
unmap_page s pml4 va =
    let m = s.pmm.memory in
    if not (is_present (m (pml4_entry pml4 va)))
    then s
    else if not (is_present (m (pdpt_entry (pdpt_of m pml4 va) va)))
    then s
    else if not (is_present (m (pd_entry (pd_of m pml4 va) va)))
    then s
    else record s {
      pmm = set_word s.pmm (pt_entry (pt_of m pml4 va) va) 0;
      flushed = va ∷ s.flushed;
    }

unfoldable pub virt_to_phys : (ℕ → ℕ) → ℕ → ℕ → ℕ
virt_to_phys m pml4 va =
    let pde = m (pd_entry (pd_of m pml4 va) va) in
    let pte = m (pt_entry (pt_of m pml4 va) va) in
    if not (is_present (m (pml4_entry pml4 va)))
    then 0
    else if not (is_present (m (pdpt_entry (pdpt_of m pml4 va) va)))
    then 0
    else if not (is_present pde)
    then 0
    else if is_huge pde
    then pte_phys_addr pde + va % page_size_2m
    else if not (is_present pte)
    then 0
    else pte_phys_addr pte + va % page_size

-- `vmm_init`; `cr3` is what the processor's register holds.
unfoldable pub vmm_init : Vmm → Option BootInfo → ℕ → Vmm
vmm_init s none cr3 = s
vmm_init s (some b) cr3 = record s {
  pmm = pfn_database_init (some b) s.pmm;
  kernel_pml4 = cr3;
  pool_next = kernel_pool_base;
}

-- One page of `vmm_free_pages`, and of the roll-back in `vmm_alloc_pages`.
unfoldable pub free_page : Vmm → ℕ → Vmm
free_page s va =
    let pa = virt_to_phys s.pmm.memory s.kernel_pml4 va in
    let freed = record s { pmm = free_physical s.pmm pa } in
    unmap_page (if pa == 0 then s else freed) s.kernel_pml4 va

unfoldable pub free_from : ℕ → Vmm → ℕ → Vmm
free_from zero s va = s
free_from (suc n) s va = free_from n (free_page s va) ((va + page_size) % 2 ^ 64)

unfoldable pub free_pages : Vmm → ℕ → ℕ → Vmm
free_pages s va n =
    let freed = free_from n s va in if va == 0 || n == 0 || s.kernel_pml4 == 0 then s else freed

-- The loop of `vmm_alloc_pages` with `n` pages left and `i` mapped, and whether it ended well.
unfoldable pub map_from : ℕ → ℕ → Vmm → ℕ → ℕ → Vmm × Bool
map_from zero i s base flags = (s, true)
map_from (suc n) i s base flags =
    let (p, frame) = alloc_physical s.pmm in
    let s' = record s { pmm = p } in
    let (mapped, done) = map_page s' s.kernel_pml4 ((base + i * page_size) % 2 ^ 64) frame flags in
    let rest = map_from n (i + 1) mapped base flags in
    if frame == 0
    then (record (free_from i s' base) { pool_next = base }, false)
    else if done
    then rest
    else (record mapped { pmm = free_physical mapped.pmm frame; pool_next = base }, false)

unfoldable pub alloc_pages : Vmm → ℕ → ℕ → Vmm × ℕ
alloc_pages s n flags =
    let base = s.pool_next in
    let (s', done) =
      map_from n 0 (record s { pool_next = (base + n * page_size) % 2 ^ 64 }) base flags in
    if n == 0 || s.kernel_pml4 == 0
    then (s, 0)
    else if ltb s.pmm.free_count n
    then (s, 0)
    else (s', if done then base else 0)
