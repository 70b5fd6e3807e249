-- ===== src/Paging/Tests.antt =====
-- One mapped page: kernel/mm/vmm.c.
use operating_system_sctrach.Common.{◌+◌, ◌≡◌, refl, [], none, if◌then◌else◌, ◌==◌}
use operating_system_sctrach.Common.Memory.{write}
use operating_system_sctrach.Pfn.{free, zero_page, alloc_physical, free_physical}
use operating_system_sctrach.Paging.{
  Vmm, table_at, page_table_at, map_page, unmap_page, virt_to_phys, free_page, free_from,
  free_pages, map_from, alloc_pages, vmm_init, kernel_pool_base,
}
use operating_system_sctrach.Paging.Unmap.{virt_to_phys-unmap_page}

-- Frames 16 to 31 are free, and the top-level table is in frame 1.
abbrev small : Vmm
small = record {
  pmm = record {
    database = λ i. record {
      next_free = if i == 31 then 0xFFFFFFFF else i + 1;
      state = free;
      ref_count = 0;
      flags = 0;
    };
    pfn_count = 32;
    free_head = 16;
    free_count = 16;
    total_bytes = 131072;
    memory = λ a. 0;
  };
  kernel_pml4 = 4096;
  pool_next = kernel_pool_base;
  flushed = [];
}

abbrev mapped : Vmm
mapped = (alloc_pages small 2 3).0

virt_to_phys-unmap_page_example :
    virt_to_phys (unmap_page mapped 4096 kernel_pool_base).pmm.memory 4096 kernel_pool_base ≡ 0
unfolding alloc_pages map_from map_page table_at page_table_at write alloc_physical zero_page
virt_to_phys-unmap_page_example = virt_to_phys-unmap_page mapped 4096 kernel_pool_base refl

map_run :
    ((alloc_pages small 2 3).1 ≡ kernel_pool_base)
    × (virt_to_phys mapped.pmm.memory 4096 (kernel_pool_base + 5) ≡ 65541)
    × (mapped.pmm.free_count ≡ 11)
    × ((free_pages mapped kernel_pool_base 2).pmm.free_count ≡ 13)
unfolding alloc_pages map_from map_page table_at page_table_at virt_to_phys write free_pages
    free_from free_page unmap_page alloc_physical free_physical zero_page
map_run = (refl, refl, refl, refl)

vmm_init_run : vmm_init small none 8192 ≡ small
unfolding vmm_init
vmm_init_run = refl
