-- ===== src/Heap/Tests.antt =====
-- A heap of 4096 bytes at address 4096: kernel/mm/heap.c.
use operating_system_sctrach.Common.{◌+◌, ◌*◌, ◌-◌, ◌%◌, ◌^◌, ◌≤◌, ◌≡◌, ◌⊎◌, refl, arith}
use operating_system_sctrach.Common.Memory.{write}
use operating_system_sctrach.Heap.{
  Heap, kheap_init, kmalloc, kfree, kheap_free_bytes, free_list_insert, free_list_remove,
  unlink_prev, unlink_next, split, take_block, first_fit, join_next, join_prev, release,
  total_needed, header_size, footer_size,
}
use operating_system_sctrach.Heap.Free.{kfree-kfree}
use operating_system_sctrach.Heap.Allocate.{kmalloc-used, take_block-free_bytes}

abbrev blank : Heap
blank = record {
  headers = λ a. record { magic = 0; flags = 0; size = 0 };
  footers = λ a. 0;
  nodes = λ a. record { prev = 0; next = 0 };
  heap_base = 0;
  heap_end = 0;
  heap_size = 0;
  free_bytes = 0;
  free_list = 0;
}

abbrev pub started_heap : Heap
started_heap = kheap_init blank 4096 4096

kfree-kfree_example :
    kfree (kfree (kmalloc 4 started_heap 16).0 4112) 4112 ≡ kfree (kmalloc 4 started_heap 16).0 4112
kfree-kfree_example = kfree-kfree (kmalloc 4 started_heap 16).0 4112

kmalloc-used_run :
    (((kmalloc 4 started_heap 16).0 ≡ started_heap) × ((kmalloc 4 started_heap 16).1 ≡ 0))
    ⊎ ((((kmalloc 4 started_heap 16).0.headers
            (((kmalloc 4 started_heap 16).1 + 2 ^ 64 - header_size) % 2 ^ 64)).flags
          ≡ 1)
        × (16 + header_size + footer_size
            ≤ ((kmalloc 4 started_heap 16).0.headers
                (((kmalloc 4 started_heap 16).1 + 2 ^ 64 - header_size) % 2 ^ 64)).size))
kmalloc-used_run = kmalloc-used 4 started_heap 16 (omega arith)

take_block-free_bytes_run :
    (take_block started_heap 4096 40).free_bytes + 2 * 40 + header_size + footer_size
    ≡ started_heap.free_bytes + (started_heap.headers 4096).size
unfolding kheap_init free_list_insert write
take_block-free_bytes_run =
    take_block-free_bytes started_heap 4096 40 (omega arith) (omega arith) (omega arith)
      (omega arith) (omega arith)

-- A heap of 4096 bytes reports 8064 free bytes after the first allocation, and the two halves of a
-- pair of blocks are one again after both are freed.
heap_run :
    (kheap_free_bytes (kmalloc 4 started_heap 16).0 ≡ 8064)
    × ((kmalloc 4 started_heap 16).1 ≡ 4112)
    × (((kfree (kmalloc 4 started_heap 16).0 4112).headers 4096).size ≡ 4096)
unfolding kheap_free_bytes kmalloc kheap_init first_fit total_needed take_block split
    free_list_insert free_list_remove unlink_prev unlink_next kfree release join_next join_prev
    write
heap_run = (refl, refl, refl)
