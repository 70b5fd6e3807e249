-- ===== src/Arch/Descriptors/Gates.antt =====
-- What the processor finds in the tables that kernel/arch/x86_64/gdt_idt.c builds.
use operating_system_sctrach.Common.{
  ℕ, zero, suc, ◌+◌, ◌-◌, ◌*◌, ◌%◌, ◌^◌, ◌<◌, ◌≡◌, ◌≢◌, refl, ◌∙◌, ◌||◌, ◌==◌, if◌then◌else◌, arith,
  Bool-cases, inl, inr,
}
use operating_system_sctrach.Common.Memory.{write, write_self, write_ne}
use operating_system_sctrach.Arch.Descriptors.{
  GdtEntry, IdtEntry, Tables, Addresses, gate, idt_set_gate, set_gates, no_gate, gate_interrupt,
  idt_init, tss_init, gdt_init, hardware_tables_init, ist_stack_size, rsp0_stack_size, tss_low,
  tss_high,
}

-- The address that the processor puts together from a gate, and from the two slots of the TSS.
abbrev pub handler_of : IdtEntry → ℕ
handler_of e = e.offset_low + e.offset_mid * 2 ^ 16 + e.offset_high * 2 ^ 32

abbrev pub tss_base_of : GdtEntry → GdtEntry → ℕ
tss_base_of l h =
    l.base_low
    + l.base_mid * 2 ^ 16
    + l.base_high * 2 ^ 24
    + h.limit_low * 2 ^ 32
    + h.base_low * 2 ^ 48

-- The stack that the processor changes to when ring 3 is interrupted.
abbrev pub entry_stack : Tables → IdtEntry → ℕ
entry_stack t e = if e.ist == 0 then t.tss.rsp 0 else t.tss.ist (e.ist - 1)

-- The stack that each vector should have.
abbrev pub stack_for : Addresses → ℕ → ℕ
stack_for a v =
    if v == 8
    then a.ist1_stack + ist_stack_size
    else if v == 2
    then a.ist2_stack + ist_stack_size
    else if v == 18
    then a.ist3_stack + ist_stack_size
    else if v == 1
    then a.ist4_stack + ist_stack_size
    else a.rsp0_stack + rsp0_stack_size

set_gates-below :
    (stubs : ℕ → ℕ) (n : ℕ) (idt : ℕ → IdtEntry) (v : ℕ)
    → n < 257
    → v < n
    → set_gates stubs n idt v ≡ gate (stubs v) 0 gate_interrupt 0
unfolding set_gates idt_set_gate
set_gates-below stubs zero idt v k h = absurd (omega arith)
set_gates-below stubs (suc n) idt v k h =
    let slot : n % 256 ≡ n = omega arith in
    elim (Bool-cases (v == n)) [
      | inl e ↦
          let same : v ≡ n = ground arith in
          rw (slot, same) (write_self (set_gates stubs n idt) n (gate (stubs n) 0 gate_interrupt 0))
      | inr e ↦
          let other : v ≢ n = λ q. absurd (ground arith) in
          rw slot (
            write_ne (set_gates stubs n idt) n (gate (stubs n) 0 gate_interrupt 0) v other
            ∙ set_gates-below stubs n idt v (omega arith) (ground arith))
    ]

gate-handler : (addr ist type dpl : ℕ) → addr < 2 ^ 64 → handler_of (gate addr ist type dpl) ≡ addr
unfolding gate
gate-handler addr ist type dpl h = omega arith

gate-present :
    (addr ist type dpl : ℕ)
    → let e = gate addr ist type dpl in
      (e.present ≡ 1) × (e.selector ≡ 8) × (e.dpl ≡ dpl % 4) × (e.ist ≡ ist % 8)
unfolding gate
gate-present addr ist type dpl = (refl, refl, refl, refl)

-- The interrupt stack, the type and the privilege level that each vector should have.
abbrev pub ist_for : ℕ → ℕ
ist_for v =
    if v == 8 then 1 else if v == 2 then 2 else if v == 18 then 3 else if v == 1 then 4 else 0

abbrev pub type_for : ℕ → ℕ
type_for v = if (v == 1) || (v == 3) || (v == 128) then 15 else 14

abbrev pub dpl_for : ℕ → ℕ
dpl_for v = if (v == 3) || (v == 128) then 3 else 0

idt_init-at :
    (a : Addresses) (t : Tables) (v : ℕ)
    → v < 256
    → (idt_init a t).idt v ≡ gate (a.isr_stub_table v) (ist_for v) (type_for v) (dpl_for v)
unfolding idt_init idt_set_gate write
idt_init-at a t v h =
    ground (arith, set_gates-below a.isr_stub_table 256 (λ _. no_gate) v (omega arith) h)

stack-for :
    (a : Addresses) (t : Tables) (v : ℕ)
    → entry_stack (tss_init a t) (gate (a.isr_stub_table v) (ist_for v) (type_for v) (dpl_for v))
      ≡ stack_for a v
unfolding tss_init gate write
stack-for a t v = ground arith

gdt_init-tss :
    (a : Addresses) (t : Tables)
    → a.g_tss < 2 ^ 64
    → tss_base_of ((gdt_init a t).gdt 5) ((gdt_init a t).gdt 6) ≡ a.g_tss
unfolding gdt_init tss_low tss_high write
gdt_init-tss a t h = omega arith

-- The tables that `hardware_tables_init` builds: the gate of each of the 256 vectors is present, runs in
-- the kernel's code segment and leads to the vector's stub; ring 3 may raise only the vectors 3 and 128;
-- double fault, NMI, machine check and debug each have a stack of their own, and all other vectors the
-- stack of ring 0; and the descriptor of the task state segment holds its address. Addresses have 64 bits.
pub hardware_tables_init-gates :
    (a : Addresses) (t : Tables) (v : ℕ)
    → v < 256
    → a.isr_stub_table v < 2 ^ 64
    → a.g_tss < 2 ^ 64
    → let t' = hardware_tables_init a t in
      let e = t'.idt v in
      (handler_of e ≡ a.isr_stub_table v)
      × (e.present ≡ 1)
      × (e.selector ≡ 8)
      × (e.dpl ≡ (if (v == 3) || (v == 128) then 3 else 0))
      × (entry_stack t' e ≡ stack_for a v)
      × (tss_base_of (t'.gdt 5) (t'.gdt 6) ≡ a.g_tss)
unfolding hardware_tables_init idt_init tss_init
hardware_tables_init-gates a t v h s b =
    let t2 = tss_init a (gdt_init a t) in
    let at = idt_init-at a t2 v h in
    let stub = a.isr_stub_table v in
    let p = gate-present stub (ist_for v) (type_for v) (dpl_for v) in
    rw at (
      gate-handler stub (ist_for v) (type_for v) (dpl_for v) s,
      p.0,
      p.1,
      p.2 ∙ ground arith,
      stack-for a (gdt_init a t) v,
      gdt_init-tss a t b,
    )
