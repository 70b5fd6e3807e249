-- ===== src/Paging/Unmap.antt =====
-- Taking a page out of the page tables: kernel/mm/vmm.c.
use operating_system_sctrach.Common.{ℕ, ◌≡◌, false, arith}
use operating_system_sctrach.Common.Memory.{write}
use operating_system_sctrach.Paging.{Vmm, unmap_page, virt_to_phys, is_huge, pd_entry, pd_of}

-- An address that is not in a huge page translates to 0 once it is unmapped, also where the tables
-- overlap.
pub virt_to_phys-unmap_page :
    (s : Vmm) (pml4 va : ℕ)
    → is_huge (s.pmm.memory (pd_entry (pd_of s.pmm.memory pml4 va) va)) ≡ false
    → virt_to_phys (unmap_page s pml4 va).pmm.memory pml4 va ≡ 0
unfolding unmap_page virt_to_phys write
virt_to_phys-unmap_page s pml4 va h = ground arith
