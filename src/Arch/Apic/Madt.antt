-- ===== src/Arch/Apic/Madt.antt =====
-- The processors that `parse_madt` of kernel/arch/x86_64/apic.c finds.
use operating_system_sctrach.Common.{
  ℕ, zero, suc, ◌+◌, ◌≤◌, ◌<◌, ◌≡◌, ◌≢◌, ◌⊎◌, take_all, refl, sym, ap, ◌∙◌, List, [], ◌∷◌, ◌++◌,
  append_assoc, append_nil, take, length, length-append, true, false, ltb, leb, ◌==◌, ◌||◌,
  if◌then◌else◌, arith, Bool-cases, inl, inr,
}
use operating_system_sctrach.Common.Memory.{write, write_self}
use operating_system_sctrach.Common.Ring.{span, span-append, span-write}
use operating_system_sctrach.Arch.Apic.{
  Bytes, Apic, word32, is_usable, add_cpu, walk, parse_madt, is_madt, acpi_validate_checksum,
}

-- The addresses of the entries of a table from `a` on, up to its end or to an entry that says it is
-- shorter than its own head.
pub data Entries (m : Bytes) (end : ℕ) : ℕ → List ℕ → Type 0 where
  ended : (a : ℕ) → end ≤ a → Entries m end a []
  malformed : (a : ℕ) → a < end → m (a + 1) < 2 → Entries m end a []
  more :
      (a : ℕ) (es : List ℕ)
      → a < end
      → 2 ≤ m (a + 1)
      → Entries m end (a + m (a + 1)) es
      → Entries m end a (a ∷ es)

-- The identifiers of the processors that may be used, in the order of the table.
abbrev pub usable_ids : Bytes → List ℕ → List ℕ
usable_ids m [] = []
usable_ids m (a ∷ es) = (if is_usable m a then m (a + 3) ∷ [] else []) ++ usable_ids m es

-- The identifiers that were recorded.
abbrev pub cpus : Apic → List ℕ
cpus s = span s.apic_ids 0 s.cpu_count

length-span : (f : ℕ → ℕ) (i k : ℕ) → length (span f i k) ≡ k
unfolding span
length-span f i zero = refl
length-span f i (suc k) = ap suc (length-span f (i + 1) k)

none-left : (s : Apic) → s.cpu_count ≡ 0 → cpus s ≡ []
unfolding span
none-left s e = rw e refl

take-take-append : (n : ℕ) (xs ys : List ℕ) → take n (take n xs ++ ys) ≡ take n (xs ++ ys)
take-take-append zero xs ys = refl
take-take-append (suc n) [] ys = refl
take-take-append (suc n) (x ∷ xs) ys = ap (λ r. x ∷ r) (take-take-append n xs ys)

take-append_full : (n : ℕ) (xs ys : List ℕ) → n ≤ length xs → take n (xs ++ ys) ≡ take n xs
take-append_full zero xs ys h = refl
take-append_full (suc n) [] ys h = absurd (omega arith)
take-append_full (suc n) (x ∷ xs) ys h = ap (λ r. x ∷ r) (take-append_full n xs ys (omega arith))

add_cpu-cpus :
    (m : Bytes) (a : ℕ) (s : Apic)
    → s.cpu_count ≤ 32
    → ((add_cpu m a s).cpu_count ≤ 32)
      × (cpus (add_cpu m a s) ≡ take 32 (cpus s ++ (if is_usable m a then m (a + 3) ∷ [] else [])))
unfolding add_cpu
add_cpu-cpus m a s h =
    let n = s.cpu_count in
    let len = length-span s.apic_ids 0 n in
    elim (Bool-cases (is_usable m a)) [
      | inr e ↦
          rw (add_cpu, e)
            (
              h,
              sym (ap (take 32) (append_nil (cpus s)) ∙ take_all 32 (cpus s) (omega (arith, len))),
            )
      | inl e ↦ elim (Bool-cases (ltb n 32)) [
        | inl k ↦
            let start : 0 + n ≡ n = omega arith in
            let f = write s.apic_ids n (m (a + 3)) in
            let next : n + 1 ≡ suc n = omega arith in
            let grown : span f 0 (suc n) ≡ cpus s ++ (m (a + 3) ∷ []) =
              rw
                (
                  span-append f 0 n,
                  start,
                  write_self s.apic_ids n (m (a + 3)),
                  span-write s.apic_ids n (m (a + 3)) 0 n (omega arith),
                )
                refl in
            rw (add_cpu, e, k)
              (
                ground arith,
                rw next (
                    grown
                    ∙ sym (
                        take_all 32 (cpus s ++ (m (a + 3) ∷ [])) (
                          omega (
                            arith,
                            len,
                            length-append (cpus s) (m (a + 3) ∷ []),
                            (let b : n < 32 = ground arith in b),
                          )))),
              )
        | inr k ↦
            let full : 32 ≤ n = ground arith in
            rw (add_cpu, e, k)
              (
                h,
                sym (
                    take-append_full 32 (cpus s) (m (a + 3) ∷ []) (omega (arith, len))
                    ∙ take_all 32 (cpus s) (omega (arith, len))),
              )
      ]
    ]

-- The loop ends, and records what it should.
walk-cpus :
    (fuel : ℕ) (m : Bytes) (a end : ℕ) (s : Apic)
    → end ≤ a + fuel
    → s.cpu_count ≤ 32
    → let s' = walk fuel m a end s in
      (es : List ℕ) × Entries m end a es
      × (s'.cpu_count ≤ 32)
      × (cpus s' ≡ take 32 (cpus s ++ usable_ids m es))
unfolding walk
walk-cpus zero m a end s f h = (
  [],
  ended a (omega arith),
  h,
  sym (
      ap (take 32) (append_nil (cpus s))
      ∙ take_all 32 (cpus s) (omega (arith, length-span s.apic_ids 0 s.cpu_count))),
)
walk-cpus (suc fuel) m a end s f h =
    let stay : cpus s ≡ take 32 (cpus s ++ []) = sym (
      ap (take 32) (append_nil (cpus s))
      ∙ take_all 32 (cpus s) (omega (arith, length-span s.apic_ids 0 s.cpu_count))) in
    elim (Bool-cases (leb end a)) [
      | inl e ↦ rw (walk, e) ([], ended a (ground arith), h, stay)
      | inr e ↦ elim (Bool-cases (ltb (m (a + 1)) 2)) [
        | inl k ↦ rw (walk, e, k) ([], malformed a (ground arith) (ground arith), h, stay)
        | inr k ↦
            let long : 2 ≤ m (a + 1) = ground arith in
            let (room, added) = add_cpu-cpus m a s h in
            let (es, entries, bound, ids) =
              walk-cpus fuel m (a + m (a + 1)) end (add_cpu m a s) (omega arith) room in
            let own = if is_usable m a then m (a + 3) ∷ [] else [] in
            rw (walk, e, k)
              (
                a ∷ es,
                more a es (ground arith) long entries,
                bound,
                ids
                    ∙ ap (λ xs. take 32 (xs ++ usable_ids m es)) added
                    ∙ take-take-append 32 (cpus s ++ own) (usable_ids m es)
                    ∙ ap (take 32) (append_assoc (cpus s) own (usable_ids m es)),
              )
      ]
    ]

add_cpu-base : (m : Bytes) (a : ℕ) (s : Apic) → (add_cpu m a s).lapic_base ≡ s.lapic_base
unfolding add_cpu
add_cpu-base m a s = ground arith

walk-base :
    (fuel : ℕ) (m : Bytes) (a end : ℕ) (s : Apic) → (walk fuel m a end s).lapic_base ≡ s.lapic_base
unfolding walk
walk-base zero m a end s = refl
walk-base (suc fuel) m a end s = elim (Bool-cases (leb end a || ltb (m (a + 1)) 2)) [
  | inl e ↦ rw (walk, e) refl
  | inr e ↦ rw (walk, e) (walk-base fuel m (a + m (a + 1)) end (add_cpu m a s) ∙ add_cpu-base m a s)
]

-- A table with the signature and the checksum of a MADT is read to its end, or to an entry that says it is
-- shorter than two bytes: the processors recorded are the first 32 of the usable ones among the entries, in
-- the order of the table, and the base address is the table's. If none is usable, one is counted.
pub parse_madt-cpus :
    (m : Bytes) (madt : ℕ) (s : Apic)
    → madt ≢ 0
    → is_madt m madt ≡ true
    → acpi_validate_checksum m madt (word32 m (madt + 4)) ≡ true
    → let s' = parse_madt m madt s in
      (es : List ℕ) × Entries m (madt + word32 m (madt + 4)) (madt + 44) es
      × (s'.lapic_base ≡ word32 m (madt + 36))
      × (s'.cpu_count ≤ 32)
      × (((s'.cpu_count ≡ 1) × (take 32 (usable_ids m es) ≡ []))
          ⊎ ((0 < s'.cpu_count) × (cpus s' ≡ take 32 (usable_ids m es))))
unfolding parse_madt span
parse_madt-cpus m madt s h sig sum =
    let len = word32 m (madt + 4) in
    let s1 = record s { lapic_base = word32 m (madt + 36); cpu_count = 0 } in
    let s2 = walk len m (madt + 44) (madt + len) s1 in
    let start : madt + 36 + 8 ≡ madt + 44 = omega arith in
    let there : (madt == 0) ≡ false = ground arith in
    let (es, entries, bound, ids) =
      walk-cpus len m (madt + 44) (madt + len) s1 (omega arith) (omega arith) in
    elim (Bool-cases (s2.cpu_count == 0)) [
      | inl e ↦
          rw (parse_madt, there, sig, sum, start, e)
            (
              es,
              entries,
              walk-base len m (madt + 44) (madt + len) s1,
              omega arith,
              inl (refl, sym ids ∙ none-left s2 (ground arith)),
            )
      | inr e ↦
          rw (parse_madt, there, sig, sum, start, e)
            (
              es,
              entries,
              walk-base len m (madt + 44) (madt + len) s1,
              bound,
              inr (ground arith, ids),
            )
    ]
