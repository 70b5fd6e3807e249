-- ===== src/Heap/Free.antt =====
-- What freeing a block does to its header: kernel/mm/heap.c.
use operating_system_sctrach.Common.{
  ℕ, ◌+◌, ◌-◌, ◌%◌, ◌^◌, ◌≡◌, refl, sym, ap, subst, ◌⊎◌, ◌∙◌, Bool-cases, inl, inr, ◌==◌, not, ◌||◌,
  arith,
}
use operating_system_sctrach.Common.Memory.{write, write_self}
use operating_system_sctrach.Heap.{
  Heap, HeapHeader, free_list_insert, free_list_remove, unlink_prev, unlink_next, join_next,
  join_prev, release, kfree, heap_magic, is_used, next_block, prev_block, set_header, mirror_size,
  header_size, footer_size,
}

pub free_list_insert-headers : (h : Heap) (a : ℕ) → (free_list_insert h a).headers ≡ h.headers
unfolding free_list_insert
free_list_insert-headers h a = ground arith

pub free_list_remove-headers : (h : Heap) (a : ℕ) → (free_list_remove h a).headers ≡ h.headers
unfolding free_list_remove unlink_prev unlink_next
free_list_remove-headers h a = ground arith

-- No header but its own is changed by joining with the next block, and its flags stay.
join_next-flags : (h : Heap) (a b : ℕ) → ((join_next h a).headers b).flags ≡ (h.headers b).flags
unfolding join_next write
join_next-flags h a b = rw (join_next, free_list_remove-headers h (next_block h a)) (ground arith)

join_prev-flags : (h : Heap) (a b : ℕ) → ((join_prev h a).0.headers b).flags ≡ (h.headers b).flags
unfolding join_prev write
join_prev-flags h a b = rw (join_prev, free_list_remove-headers h (prev_block h a)) (ground arith)

abbrev flags_of : HeapHeader → ℕ
flags_of v = v.flags

-- A block that was released is marked free, whatever it was joined with.
pub release-flags : (h : Heap) (a : ℕ) → ((release h a).headers a).flags ≡ 0
unfolding release
release-flags h a =
    let marked = set_header h a (record (h.headers a) { flags = 0 }) in
    let counted = record marked {
      free_bytes =
          (h.free_bytes + (h.headers a).size + 2 ^ 64 - header_size - footer_size) % 2 ^ 64;
    } in
    let m = mirror_size counted a in
    let joined = join_prev (join_next m a) a in
    let e1 = ap (λ hs. (hs a).flags) (free_list_insert-headers joined.0 joined.1) in
    let e2 = join_prev-flags (join_next m a) a a in
    let e3 = join_next-flags m a a in
    let e4 = ap flags_of (write_self h.headers a (record (h.headers a) { flags = 0 })) in
    e1 ∙ e2 ∙ e3 ∙ e4

-- A pointer to a block that is marked free is ignored.
pub kfree-unused :
    (h : Heap) (ptr : ℕ)
    → (h.headers ((ptr + 2 ^ 64 - header_size) % 2 ^ 64)).flags ≡ 0
    → kfree h ptr ≡ h
unfolding kfree
kfree-unused h ptr z = ground arith

kfree-cases :
    (h : Heap) (ptr : ℕ)
    → (kfree h ptr ≡ h) ⊎ (kfree h ptr ≡ release h ((ptr + 2 ^ 64 - header_size) % 2 ^ 64))
unfolding kfree
kfree-cases h ptr =
    let a = (ptr + 2 ^ 64 - header_size) % 2 ^ 64 in
    elim (Bool-cases (ptr == 0)) [
      | inl e ↦ inl (rw (e) refl)
      | inr e ↦
          elim (Bool-cases
            (not ((h.headers a).magic == heap_magic) || not (is_used (h.headers a)))) [
              | inl k ↦ inl (rw (e, k) refl)
              | inr k ↦ inr (rw (e, k) refl)
            ]
    ]

-- Freeing a pointer a second time changes nothing.
pub kfree-kfree : (h : Heap) (ptr : ℕ) → kfree (kfree h ptr) ptr ≡ kfree h ptr
kfree-kfree h ptr =
    let a = (ptr + 2 ^ 64 - header_size) % 2 ^ 64 in
    elim (kfree-cases h ptr) [
      | inl e ↦ ap (λ g. kfree g ptr) e
      | inr e ↦
          subst (λ g. kfree g ptr ≡ g) (sym e) (kfree-unused (release h a) ptr (release-flags h a))
    ]
