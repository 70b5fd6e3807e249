-- ===== src/Exec/Kpcr/Start.antt =====
-- Which control regions the start of a processor changes: kernel/exec/kpcr.c.
use operating_system_sctrach.Common.{
  ℕ, zero, suc, ◌+◌, ◌-◌, ◌≡◌, refl, ◌≢◌, ◌<◌, ◌≤◌, some, arith, ltb, leb, ◌==◌, if◌then◌else◌, inl,
  inr, Bool-cases, true, false,
}
use operating_system_sctrach.Common.Memory.{write, write_self}
use operating_system_sctrach.Exec.Kpcr.{
  Cpus, Kpcr, fresh_prcb, kpcr_init, find_cpu, enter, ap_kernel_entry, set_irql, max_cpus,
  irql_passive,
}

-- No processor between two numbers has the identifier.
abbrev pub Differ : (ℕ → ℕ) → ℕ → ℕ → ℕ → Type 0
Differ apic_ids my_apic_id a i = (m : ℕ) → a ≤ m → m < i → apic_ids m ≢ my_apic_id

find_cpu-first :
    (n : ℕ) (apic_ids : ℕ → ℕ) (my_apic_id a i : ℕ)
    → a ≤ i
    → i < a + n
    → apic_ids i ≡ my_apic_id
    → Differ apic_ids my_apic_id a i
    → find_cpu n apic_ids my_apic_id a ≡ i
unfolding find_cpu
find_cpu-first zero apic_ids my_apic_id a i low high is others = absurd (omega arith)
find_cpu-first (suc n) apic_ids my_apic_id a i low high is others = elim (Bool-cases (ltb a i)) [
  | inl e ↦
      let lt : a < i = ground arith in
      let ne = others a (omega arith) lt in
      let miss : (apic_ids a == my_apic_id) ≡ false = ground arith in
      rw (find_cpu, miss)
        (find_cpu-first n apic_ids my_apic_id (a + 1) i (omega arith) (omega arith) is
          (λ m l h. others m (omega arith) h))
  | inr e ↦
      let same : a ≡ i = ground arith in
      let hit : (apic_ids a == my_apic_id) ≡ true = rw (same) (ground arith) in
      rw (find_cpu, hit) same
]

-- The control region that `kpcr_init` gives processor `i`.
abbrev pub booted : ℕ → ℕ → ℕ → ℕ → ℕ → Kpcr
booted i my_apic_id tss idt gdt = record {
  self = some i;
  prcb = some i;
  initial_apic_id = my_apic_id;
  current_irql = 15;
  tss = tss;
  idt = idt;
  gdt = gdt;
  kernel_stack_top = 0;
  user_stack_mirror = 0;
  embedded_prcb = fresh_prcb i my_apic_id;
}

-- The control region with which it starts to idle.
abbrev pub idling : ℕ → ℕ → ℕ → ℕ → ℕ → Kpcr
idling i my_apic_id tss idt gdt = set_irql irql_passive (booted i my_apic_id tss idt gdt)

kpcr_init-booted :
    (s : Cpus) (i my_apic_id tss idt gdt : ℕ)
    → i < max_cpus
    → kpcr_init s i my_apic_id tss idt gdt ≡ (
      record {
        table = write s.table i (booted i my_apic_id tss idt gdt);
        online_cpu_count = if leb s.online_cpu_count i then i + 1 else s.online_cpu_count;
      },
      some i,
    )
unfolding kpcr_init
kpcr_init-booted s i my_apic_id tss idt gdt bound =
    let in_table : leb max_cpus i ≡ false = ground arith in rw (kpcr_init, in_table) refl

write-again {ℓ} :
    {A : Type ℓ} (m : ℕ → A) (i : ℕ) (v : A) (f : A → A) (j : ℕ)
    → write (write m i v) i (f (write m i v i)) j ≡ (if j == i then f v else m j)
unfolding write
write-again m i v f j = elim (Bool-cases (j == i)) [
  | inl e ↦ rw (e, write_self m i v) refl
  | inr e ↦ rw (e) refl
]

enter-idling :
    (s : Cpus) (i my_apic_id tss idt gdt j : ℕ)
    → i < max_cpus
    → let (s', gs) = enter s i my_apic_id tss idt gdt in
      (s'.table j ≡ (if j == i then idling i my_apic_id tss idt gdt else s.table j))
      × (gs ≡ some i)
      × (i < s'.online_cpu_count)
unfolding enter
enter-idling s i my_apic_id tss idt gdt j bound =
    let boots = kpcr_init-booted s i my_apic_id tss idt gdt bound in
    rw (enter, boots, boots)
      (
        write-again s.table i (booted i my_apic_id tss idt gdt) (set_irql irql_passive) j,
        refl,
        ground arith,
      )

-- A processor other than the first, the first in the table with its identifier, starts with the control
-- region of its own number, which its registers then name, at the level PASSIVE with an empty queue; the
-- control regions of all others stay as they are. Its number is below 32 and below the processor count.
pub ap_kernel_entry-idling :
    (s : Cpus) (apic_ids : ℕ → ℕ) (cpu_count i tss idt gdt j : ℕ)
    → 1 ≤ i
    → i < cpu_count
    → i < max_cpus
    → Differ apic_ids (apic_ids i) 1 i
    → let (s', gs) = ap_kernel_entry s apic_ids cpu_count (apic_ids i) tss idt gdt in
      (s'.table j ≡ (if j == i then idling i (apic_ids i) tss idt gdt else s.table j))
      × (gs ≡ some i)
      × (i < s'.online_cpu_count)
unfolding ap_kernel_entry
ap_kernel_entry-idling s apic_ids cpu_count i tss idt gdt j low high bound others =
    let cpus = if ltb cpu_count max_cpus then cpu_count else max_cpus in
    let within : i < 1 + (cpus - 1) = ground arith in
    let found = find_cpu-first (cpus - 1) apic_ids (apic_ids i) 1 i low within refl others in
    rw (ap_kernel_entry, found) (enter-idling s i (apic_ids i) tss idt gdt j bound)
