-- ===== src/Heap.antt =====
-- The kernel heap of kernel/mm/heap.c. An address is a number and 0 is NULL. Block headers, block
-- footers and free-list nodes are functions of the address where they start, so that objects of
-- different kinds are taken not to overlap; sizes and counts are 64-bit numbers.
pub mod Free
pub mod Allocate
pub mod Tests
use operating_system_sctrach.Common.{
  ℕ, zero, suc, ◌+◌, ◌-◌, ◌*◌, ◌/◌, ◌%◌, ◌^◌, Bool, not, ltb, leb, ◌==◌, ◌&&◌, ◌||◌, if◌then◌else◌,
  Option, none, some,
}
use operating_system_sctrach.Common.Memory.{write}

abbrev pub heap_magic : ℕ
heap_magic = 0xDEADC0DE

abbrev pub header_size : ℕ
header_size = 16

abbrev pub footer_size : ℕ
footer_size = 8

-- HEAP_MIN_BLOCK
abbrev pub min_block : ℕ
min_block = 40

pub record HeapHeader : Type 0 where
  pub magic : ℕ
  pub flags : ℕ
  pub size : ℕ

pub record FreeNode : Type 0 where
  pub prev : ℕ
  pub next : ℕ

pub record Heap : Type 0 where
  pub headers : ℕ → HeapHeader
  pub footers : ℕ → ℕ
  pub nodes : ℕ → FreeNode
  pub heap_base : ℕ
  pub heap_end : ℕ
  pub heap_size : ℕ
  pub free_bytes : ℕ
  pub free_list : ℕ

-- Whether a block is in use.
abbrev pub is_used : HeapHeader → Bool
is_used h = h.flags % 2 == 1

-- The address of the footer that belongs to the header at `a`.
abbrev pub block_footer : Heap → ℕ → ℕ
block_footer h a = (a + (h.headers a).size + 2 ^ 64 - footer_size) % 2 ^ 64

abbrev pub next_block : Heap → ℕ → ℕ
next_block h a = (a + (h.headers a).size) % 2 ^ 64

abbrev pub prev_block : Heap → ℕ → ℕ
prev_block h a = (a + 2 ^ 64 - h.footers ((a + 2 ^ 64 - footer_size) % 2 ^ 64)) % 2 ^ 64

abbrev pub set_header : Heap → ℕ → HeapHeader → Heap
set_header h a v = record h { headers = write h.headers a v }

abbrev pub set_node : Heap → ℕ → FreeNode → Heap
set_node h a v = record h { nodes = write h.nodes a v }

-- `block_footer(hdr)->size = hdr->size`
abbrev pub mirror_size : Heap → ℕ → Heap
mirror_size h a = record h { footers = write h.footers (block_footer h a) (h.headers a).size }

abbrev pub node_of : ℕ → ℕ
node_of a = (a + header_size) % 2 ^ 64

unfoldable pub free_list_insert : Heap → ℕ → Heap
free_list_insert h a =
    let node = node_of a in
    let linked = set_node h node (record { prev = 0; next = h.free_list }) in
    let behind = set_node linked h.free_list (record (linked.nodes h.free_list) { prev = node }) in
    record (if h.free_list == 0 then linked else behind) { free_list = node }

-- The two halves of `free_list_remove` before it clears the node's own links.
unfoldable pub unlink_prev : Heap → ℕ → Heap
unlink_prev h node =
    let v = h.nodes node in
    if v.prev == 0
    then record h { free_list = v.next }
    else set_node h v.prev (record (h.nodes v.prev) { next = v.next })

unfoldable pub unlink_next : Heap → ℕ → Heap
unlink_next h node =
    let v = h.nodes node in
    if v.next == 0 then h else set_node h v.next (record (h.nodes v.next) { prev = v.prev })

unfoldable pub free_list_remove : Heap → ℕ → Heap
free_list_remove h a =
    let node = node_of a in
    set_node (unlink_next (unlink_prev h node) node) node (record { prev = 0; next = 0 })

unfoldable pub kheap_init : Heap → ℕ → ℕ → Heap
kheap_init h base size =
    let opened = record h {
      heap_base = base;
      heap_end = (base + size) % 2 ^ 64;
      heap_size = size;
      free_list = 0;
    } in
    let block =
      mirror_size (set_header opened base (record { magic = heap_magic; flags = 0; size = size }))
        base in
    if base == 0 || ltb size (min_block * 4)
    then h
    else record (free_list_insert block base) { free_bytes = size - header_size - footer_size }

-- The bytes that a request takes, header and footer included.
unfoldable pub total_needed : ℕ → ℕ
total_needed size =
    let aligned = (size + 15) % 2 ^ 64 / 16 * 16 in
    let total = (aligned + header_size + footer_size) % 2 ^ 64 in
    if ltb total min_block then min_block else total

-- The part of `kmalloc` that splits the block at `a` when what is left over can be a block.
unfoldable pub split : Heap → ℕ → ℕ → Heap
split h a total =
    let block = h.headers a in
    let remainder = block.size - total in
    let cut = set_header h a (record block { size = total }) in
    let rest = next_block cut a in
    let made =
      mirror_size (set_header cut rest (record { magic = heap_magic; flags = 0; size = remainder }))
        rest in
    let listed = free_list_insert made rest in
    if leb ((total + min_block) % 2 ^ 64) block.size
    then record listed {
      free_bytes = (listed.free_bytes + remainder + 2 ^ 64 - header_size - footer_size) % 2 ^ 64;
    }
    else h

-- The part of `kmalloc` that takes the block at `a`.
unfoldable pub take_block : Heap → ℕ → ℕ → Heap
take_block h a total =
    let parted = split (free_list_remove h a) a total in
    let used = mirror_size (set_header parted a (record (parted.headers a) { flags = 1 })) a in
    record used { free_bytes = (used.free_bytes + 2 ^ 64 - total) % 2 ^ 64 }

-- The first-fit search of `kmalloc` from a node, with fuel; the address is that of the header.
unfoldable pub first_fit : ℕ → Heap → ℕ → ℕ → Option ℕ
first_fit zero h total node = none
first_fit (suc n) h total node =
    let a = (node + 2 ^ 64 - header_size) % 2 ^ 64 in
    let rest = first_fit n h total (h.nodes node).next in
    if node == 0
    then none
    else if not ((h.headers a).magic == heap_magic)
    then none
    else if leb total (h.headers a).size
    then some a
    else rest

unfoldable pub kmalloc : ℕ → Heap → ℕ → Heap × ℕ
kmalloc fuel h size =
    let total = total_needed size in
    if size == 0 || h.heap_base == 0 then (h, 0) else elim (first_fit fuel h total h.free_list) [
      | some a ↦ (take_block h a total, (a + header_size) % 2 ^ 64)
      | none ↦ (h, 0)
    ]

-- The part of `kfree` that joins the block at `a` with the next.
unfoldable pub join_next : Heap → ℕ → Heap
join_next h a =
    let next = next_block h a in
    let removed = free_list_remove h next in
    let block = removed.headers a in
    let grown =
      set_header removed a
        (record block { size = (block.size + (removed.headers next).size) % 2 ^ 64 }) in
    if ltb next h.heap_end && (h.headers next).magic == heap_magic && not (is_used (h.headers next))
    then mirror_size grown a
    else h

-- The part of `kfree` that joins the block at `a` with the one before, and the block that results.
unfoldable pub join_prev : Heap → ℕ → Heap × ℕ
join_prev h a =
    let prev = prev_block h a in
    let removed = free_list_remove h prev in
    let block = removed.headers prev in
    let grown =
      set_header removed prev
        (record block { size = (block.size + (removed.headers a).size) % 2 ^ 64 }) in
    if ltb h.heap_base a && (h.headers prev).magic == heap_magic && not (is_used (h.headers prev))
    then (mirror_size grown prev, prev)
    else (h, a)

-- `kfree` of a block that is in use.
unfoldable pub release : Heap → ℕ → Heap
release h a =
    let marked = set_header h a (record (h.headers a) { flags = 0 }) in
    let counted = record marked {
      free_bytes =
          (h.free_bytes + (h.headers a).size + 2 ^ 64 - header_size - footer_size) % 2 ^ 64;
    } in
    let joined = join_prev (join_next (mirror_size counted a) a) a in
    free_list_insert joined.0 joined.1

unfoldable pub kfree : Heap → ℕ → Heap
kfree h ptr =
    let a = (ptr + 2 ^ 64 - header_size) % 2 ^ 64 in
    if ptr == 0
    then h
    else if not ((h.headers a).magic == heap_magic) || not (is_used (h.headers a))
    then h
    else release h a

unfoldable pub kheap_free_bytes : Heap → ℕ
kheap_free_bytes h = h.free_bytes
