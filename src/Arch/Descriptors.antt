-- ===== src/Arch/Descriptors.antt =====
-- The descriptor tables of kernel/arch/x86_64/gdt_idt.h and gdt_idt.c. A table is a function of the index.
-- The addresses that the linker chooses (the stacks, the task state segment and the interrupt stubs of
-- gdt_idt.asm) are the record `Addresses`. Loading the tables into the processor is assembly and left out.
pub mod Gates
use operating_system_sctrach.Common.{
  ℕ, zero, suc, ◌+◌, ◌-◌, ◌*◌, ◌/◌, ◌%◌, ◌^◌, bit_and, bit_or, ◌==◌, if◌then◌else◌,
}
use operating_system_sctrach.Common.Memory.{write}

pub record GdtEntry : Type 0 where
  pub limit_low : ℕ
  pub base_low : ℕ
  pub base_mid : ℕ
  pub access : ℕ
  pub granularity : ℕ
  pub base_high : ℕ

pub record IdtEntry : Type 0 where
  pub offset_low : ℕ
  pub selector : ℕ
  pub ist : ℕ
  pub reserved0 : ℕ
  pub gate_type : ℕ
  pub zero_bit : ℕ
  pub dpl : ℕ
  pub present : ℕ
  pub offset_mid : ℕ
  pub offset_high : ℕ
  pub reserved1 : ℕ

pub record TaskStateSegment : Type 0 where
  pub rsp : ℕ → ℕ
  pub ist : ℕ → ℕ
  pub iopb_offset : ℕ

pub record Tables : Type 0 where
  pub gdt : ℕ → GdtEntry
  pub idt : ℕ → IdtEntry
  pub tss : TaskStateSegment

pub record Addresses : Type 0 where
  pub g_tss : ℕ
  pub rsp0_stack : ℕ
  pub ist1_stack : ℕ
  pub ist2_stack : ℕ
  pub ist3_stack : ℕ
  pub ist4_stack : ℕ
  pub isr_stub_table : ℕ → ℕ

-- `sizeof(TASK_STATE_SEGMENT)`, packed.
abbrev pub tss_size : ℕ
tss_size = 104

abbrev pub ist_stack_size : ℕ
ist_stack_size = 16384

abbrev pub rsp0_stack_size : ℕ
rsp0_stack_size = 65536

abbrev pub sel_kernel_code : ℕ
sel_kernel_code = 0x08

abbrev pub gate_interrupt : ℕ
gate_interrupt = 14

abbrev pub gate_trap : ℕ
gate_trap = 15

-- The fields that `gdt_set_entry` writes.
unfoldable pub segment : ℕ → ℕ → ℕ → ℕ → GdtEntry
segment base limit access granularity = record {
  limit_low = limit % 2 ^ 16;
  base_low = base % 2 ^ 16;
  base_mid = base / 2 ^ 16 % 256;
  access = access;
  granularity = bit_or (bit_and granularity 0xF0) (limit / 2 ^ 16 % 16);
  base_high = base / 2 ^ 24 % 256;
}

unfoldable pub gdt_set_entry : (ℕ → GdtEntry) → ℕ → ℕ → ℕ → ℕ → ℕ → ℕ → GdtEntry
gdt_set_entry gdt index base limit access granularity =
    write gdt index (segment base limit access granularity)

-- The system entry that is laid over slots 5 and 6: its lower half, and its upper half, of which the
-- fields `limit_low` and `base_low` of slot 6 hold bits 32 to 63 of the base.
unfoldable pub tss_low : ℕ → GdtEntry
tss_low tss_base = record {
  limit_low = (tss_size - 1) % 2 ^ 16;
  base_low = tss_base % 2 ^ 16;
  base_mid = tss_base / 2 ^ 16 % 256;
  access = 0x89;
  granularity = (tss_size - 1) / 2 ^ 16 % 16;
  base_high = tss_base / 2 ^ 24 % 256;
}

unfoldable pub tss_high : ℕ → GdtEntry
tss_high tss_base = record {
  limit_low = tss_base / 2 ^ 32 % 2 ^ 16;
  base_low = tss_base / 2 ^ 48 % 2 ^ 16;
  base_mid = 0;
  access = 0;
  granularity = 0;
  base_high = 0;
}

-- Access bytes: present, ring, code or data, executable, readable or writable.
abbrev pub kernel_code_access : ℕ
kernel_code_access = 0x9A

abbrev pub kernel_data_access : ℕ
kernel_data_access = 0x92

abbrev pub user_data_access : ℕ
user_data_access = 0xF2

abbrev pub user_code_access : ℕ
user_code_access = 0xFA

-- `GDT_GRAN_4K | GDT_GRAN_LONG_MODE` and `GDT_GRAN_4K | GDT_GRAN_32BIT`
abbrev pub gran_code : ℕ
gran_code = 0xA0

abbrev pub gran_data : ℕ
gran_data = 0xC0

unfoldable pub gdt_init : Addresses → Tables → Tables
gdt_init a t =
    let g0 = gdt_set_entry t.gdt 0 0 0 0 0 in
    let g1 = gdt_set_entry g0 1 0 0xFFFFF kernel_code_access gran_code in
    let g2 = gdt_set_entry g1 2 0 0xFFFFF kernel_data_access gran_data in
    let g3 = gdt_set_entry g2 3 0 0xFFFFF user_data_access gran_data in
    let g4 = gdt_set_entry g3 4 0 0xFFFFF user_code_access gran_code in
    record t { gdt = write (write g4 5 (tss_low a.g_tss)) 6 (tss_high a.g_tss) }

-- `IST_DEBUG` and the others are 1 to 4; the arrays count from 0.
unfoldable pub tss_init : Addresses → Tables → Tables
tss_init a t = record t {
  tss = record {
    rsp = write (λ _. 0) 0 (a.rsp0_stack + rsp0_stack_size);
    ist =
        write
          (write
            (write (write (λ _. 0) 0 (a.ist1_stack + ist_stack_size)) 1
              (a.ist2_stack + ist_stack_size))
            2 (a.ist3_stack + ist_stack_size))
          3 (a.ist4_stack + ist_stack_size);
    iopb_offset = tss_size;
  };
}

-- The fields that `idt_set_gate` writes.
unfoldable pub gate : ℕ → ℕ → ℕ → ℕ → IdtEntry
gate addr ist gate_type dpl = record {
  offset_low = addr % 2 ^ 16;
  selector = sel_kernel_code;
  ist = ist % 8;
  reserved0 = 0;
  gate_type = gate_type % 16;
  zero_bit = 0;
  dpl = dpl % 4;
  present = 1;
  offset_mid = addr / 2 ^ 16 % 2 ^ 16;
  offset_high = addr / 2 ^ 32 % 2 ^ 32;
  reserved1 = 0;
}

unfoldable pub idt_set_gate : (ℕ → IdtEntry) → ℕ → ℕ → ℕ → ℕ → ℕ → ℕ → IdtEntry
idt_set_gate idt vector handler ist gate_type dpl =
    write idt (vector % 256) (gate handler ist gate_type dpl)

-- The loop of `idt_init` over the vectors below `n`.
unfoldable pub set_gates : (ℕ → ℕ) → ℕ → (ℕ → IdtEntry) → ℕ → IdtEntry
set_gates stubs zero idt = idt
set_gates stubs (suc n) idt = idt_set_gate (set_gates stubs n idt) n (stubs n) 0 gate_interrupt 0

abbrev pub no_gate : IdtEntry
no_gate = record {
  offset_low = 0;
  selector = 0;
  ist = 0;
  reserved0 = 0;
  gate_type = 0;
  zero_bit = 0;
  dpl = 0;
  present = 0;
  offset_mid = 0;
  offset_high = 0;
  reserved1 = 0;
}

unfoldable pub idt_init : Addresses → Tables → Tables
idt_init a t =
    let stub = a.isr_stub_table in
    let i0 = set_gates stub 256 (λ _. no_gate) in
    let i1 = idt_set_gate i0 1 (stub 1) 4 gate_trap 0 in
    let i2 = idt_set_gate i1 2 (stub 2) 2 gate_interrupt 0 in
    let i3 = idt_set_gate i2 8 (stub 8) 1 gate_interrupt 0 in
    let i4 = idt_set_gate i3 18 (stub 18) 3 gate_interrupt 0 in
    let i5 = idt_set_gate i4 3 (stub 3) 0 gate_trap 3 in
    record t { idt = idt_set_gate i5 0x80 (stub 0x80) 0 gate_trap 3 }

-- `hardware_tables_init`, without the loads.
unfoldable pub hardware_tables_init : Addresses → Tables → Tables
hardware_tables_init a t = idt_init a (tss_init a (gdt_init a t))
