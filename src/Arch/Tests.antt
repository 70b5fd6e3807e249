-- ===== src/Arch/Tests.antt =====
-- Runs of the code of kernel/arch/x86_64/.
use operating_system_sctrach.Common.{
  ℕ, ◌-◌, ◌+◌, ◌*◌, ◌<◌, ◌≤◌, ◌≡◌, ◌⊎◌, ◌||◌, ◌==◌, if◌then◌else◌, refl, List, [], ◌∷◌, get_or,
  take, true, arith,
}
use operating_system_sctrach.Common.Memory.{write}
use operating_system_sctrach.Common.Ring.{span}
use operating_system_sctrach.Arch.Descriptors.{
  GdtEntry, Tables, Addresses, hardware_tables_init, no_gate,
}
use operating_system_sctrach.Arch.Descriptors.Gates.{
  handler_of, entry_stack, stack_for, tss_base_of, hardware_tables_init-gates,
}
use operating_system_sctrach.Arch.Apic.{
  Apic, Bytes, word32, parse_madt, is_usable, has_signature, acpi_validate_checksum, sum_bytes,
  add_cpu, walk,
}
use operating_system_sctrach.Arch.Apic.Madt.{Entries, usable_ids, cpus, parse_madt-cpus}

abbrev no_segment : GdtEntry
no_segment = record {
  limit_low = 0;
  base_low = 0;
  base_mid = 0;
  access = 0;
  granularity = 0;
  base_high = 0;
}

abbrev no_tables : Tables
no_tables = record {
  gdt = λ _. no_segment;
  idt = λ _. no_gate;
  tss = record { rsp = λ _. 0; ist = λ _. 0; iopb_offset = 0 };
}

abbrev linked : Addresses
linked = record {
  g_tss = 0x200000;
  rsp0_stack = 0x210000;
  ist1_stack = 0x220000;
  ist2_stack = 0x224000;
  ist3_stack = 0x228000;
  ist4_stack = 0x22C000;
  isr_stub_table = λ v. 0x100000 + 16 * v;
}

hardware_tables_init-gates_example :
    let t = hardware_tables_init linked no_tables in
    let e = t.idt 8 in
    (handler_of e ≡ linked.isr_stub_table 8)
    × (e.present ≡ 1)
    × (e.selector ≡ 8)
    × (e.dpl ≡ (if (8 == 3) || (8 == 128) then 3 else 0))
    × (entry_stack t e ≡ stack_for linked 8)
    × (tss_base_of (t.gdt 5) (t.gdt 6) ≡ linked.g_tss)
hardware_tables_init-gates_example =
    hardware_tables_init-gates linked no_tables 8 (omega arith) (omega arith) (omega arith)

-- A table with two processors, 5 and 7.
abbrev table : List ℕ
table =
    65 ∷ 80 ∷ 73 ∷ 67 ∷ 60 ∷ 0 ∷ 0 ∷ 0 ∷ 3 ∷ 166 ∷ 0 ∷ 0 ∷ 0 ∷ 0 ∷ 0 ∷ 0 ∷ 0 ∷ 0 ∷ 0 ∷ 0 ∷ 0 ∷ 0 ∷ 0
    ∷ 0 ∷ 0 ∷ 0 ∷ 0 ∷ 0 ∷ 0 ∷ 0 ∷ 0 ∷ 0 ∷ 0 ∷ 0 ∷ 0 ∷ 0 ∷ 0 ∷ 0 ∷ 224 ∷ 254 ∷ 1 ∷ 0 ∷ 0 ∷ 0 ∷ 0 ∷ 8
    ∷ 0 ∷ 5 ∷ 1 ∷ 0 ∷ 0 ∷ 0 ∷ 0 ∷ 8 ∷ 1 ∷ 7 ∷ 1 ∷ 0 ∷ 0 ∷ 0 ∷ []

abbrev table_at : Bytes
table_at a = get_or table (a - 4096) 0

abbrev booting : Apic
booting = record { apic_ids = λ _. 0; cpu_count = 1; lapic_base = 0xFEE00000; ticks_per_ms = 0 }

table_signature : has_signature table_at 4096 65 80 73 67 ≡ true
unfolding has_signature
table_signature = refl

table_checksum : acpi_validate_checksum table_at 4096 (word32 table_at 4100) ≡ true
unfolding acpi_validate_checksum sum_bytes word32
table_checksum = refl

parse_madt-cpus_example :
    let s = parse_madt table_at 4096 booting in
    (es : List ℕ) × Entries table_at (4096 + word32 table_at (4096 + 4)) (4096 + 44) es
    × (s.lapic_base ≡ word32 table_at (4096 + 36))
    × (s.cpu_count ≤ 32)
    × (((s.cpu_count ≡ 1) × (take 32 (usable_ids table_at es) ≡ []))
        ⊎ ((0 < s.cpu_count) × (cpus s ≡ take 32 (usable_ids table_at es))))
parse_madt-cpus_example =
    parse_madt-cpus table_at 4096 booting (λ e. omega arith) table_signature table_checksum

parse_madt_run : cpus (parse_madt table_at 4096 booting) ≡ 5 ∷ 7 ∷ []
unfolding parse_madt acpi_validate_checksum sum_bytes has_signature word32 walk add_cpu is_usable
    span write
parse_madt_run = refl
