-- ===== src/Heap/Allocate.antt =====
-- What an allocation returns: kernel/mm/heap.c.
use operating_system_sctrach.Common.{
  ℕ, zero, suc, ◌+◌, ◌-◌, ◌*◌, ◌%◌, ◌^◌, ◌≤◌, ◌<◌, ◌≡◌, refl, Bool-cases, Option-cases, inl, inr,
  ◌⊎◌, ◌==◌, ◌||◌, arith, some,
}
use operating_system_sctrach.Common.Memory.{write, write_self}
use operating_system_sctrach.Heap.{
  Heap, free_list_insert, free_list_remove, split, take_block, first_fit, kmalloc, total_needed,
  heap_magic, header_size, footer_size, min_block, unlink_prev, unlink_next,
}
use operating_system_sctrach.Heap.Free.{free_list_insert-headers, free_list_remove-headers}

-- The search finds the address of a block that is not corrupt and is large enough.
pub first_fit-fits :
    (n : ℕ) (h : Heap) (total node a : ℕ)
    → first_fit n h total node ≡ some a
    → ((h.headers a).magic ≡ heap_magic) × (total ≤ (h.headers a).size) × (a < 2 ^ 64)
unfolding first_fit
first_fit-fits zero h total node a e = absurd (ground arith)
first_fit-fits (suc n) h total node a e =
    let rest = first_fit-fits n h total (h.nodes node).next a in ground arith

-- A request gets room for its bytes, a header and a footer, unless the sum wraps around.
pub total_needed-room :
    (size : ℕ)
    → size + 40 ≤ 2 ^ 64
    → (size + header_size + footer_size ≤ total_needed size)
      × (min_block ≤ total_needed size)
      × (total_needed size < 2 ^ 64)
unfolding total_needed
total_needed-room size h = ground arith

-- Splitting leaves the block at least the size that was asked for.
split-size :
    (h : Heap) (a total : ℕ)
    → total ≤ (h.headers a).size
    → 1 ≤ total
    → total < 2 ^ 64
    → total ≤ ((split h a total).headers a).size
unfolding split write
split-size h a total fits some_bytes small = rw (split, free_list_insert-headers) (ground arith)

-- The taken block is marked used and is at least as large as was asked for.
take_block-used :
    (h : Heap) (a total : ℕ)
    → total ≤ (h.headers a).size
    → 1 ≤ total
    → total < 2 ^ 64
    → (((take_block h a total).headers a).flags ≡ 1)
      × (total ≤ ((take_block h a total).headers a).size)
unfolding take_block
take_block-used h a total fits some_bytes small =
    let same = free_list_remove-headers h a in
    let fits' : total ≤ ((free_list_remove h a).headers a).size = rw (same) fits in
    let parted = split (free_list_remove h a) a total in
    let rest = split-size (free_list_remove h a) a total fits' some_bytes small in
    let now = write_self parted.headers a (record (parted.headers a) { flags = 1 }) in
    rw (take_block, now) (refl, rest)

-- An allocation either returns NULL and changes nothing, or returns a block that is marked used and
-- has room for the bytes asked for next to its header and footer; the request is small enough for
-- its size not to wrap around.
pub kmalloc-used :
    (fuel : ℕ) (h : Heap) (size : ℕ)
    → size + 80 ≤ 2 ^ 64
    → let (h', p) = kmalloc fuel h size in
      let a = (p + 2 ^ 64 - header_size) % 2 ^ 64 in
      ((h' ≡ h) × (p ≡ 0))
      ⊎ (((h'.headers a).flags ≡ 1) × (size + header_size + footer_size ≤ (h'.headers a).size))
unfolding kmalloc
kmalloc-used fuel h size small =
    let total = total_needed size in
    let room = total_needed-room size (omega arith) in
    elim (Bool-cases (size == 0 || h.heap_base == 0)) [
      | inl e ↦ rw (kmalloc, e) (inl (refl, refl))
      | inr e ↦ elim (Option-cases (first_fit fuel h total h.free_list)) [
        | inl k ↦ rw (kmalloc, e, k) (inl (refl, refl))
        | inr (a, k) ↦
            let found = first_fit-fits fuel h total h.free_list a k in
            let used = take_block-used h a total found.1 (omega arith) (omega arith) in
            let back : ((a + header_size) % 2 ^ 64 + 2 ^ 64 - header_size) % 2 ^ 64 ≡ a =
              omega arith in
            rw (kmalloc, e, k) (inr (rw (back) (used.0, omega arith)))
      ]
    ]

-- When an allocation splits a block, the free count loses the size asked for and gains what is left
-- over less a header and a footer, where none of the sums wraps around.
pub take_block-free_bytes :
    (h : Heap) (a total : ℕ)
    → total + min_block ≤ (h.headers a).size
    → (h.headers a).size < 2 ^ 64
    → min_block ≤ total
    → total ≤ h.free_bytes
    → h.free_bytes + (h.headers a).size < 2 ^ 64
    → (take_block h a total).free_bytes + 2 * total + header_size + footer_size
      ≡ h.free_bytes + (h.headers a).size
unfolding take_block split free_list_insert free_list_remove unlink_prev unlink_next write
take_block-free_bytes h a total parts small large counted sum = ground arith
