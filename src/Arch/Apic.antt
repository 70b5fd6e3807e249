-- ===== src/Arch/Apic.antt =====
-- The local interrupt controllers of kernel/arch/x86_64/apic.h and apic.c: finding the processors in the
-- ACPI tables, and the timer. Physical memory is a function from addresses to bytes; a NULL table is the
-- address 0. Accesses to the controller's registers (initialisation, inter-processor interrupts and
-- calibration) are left out but for the words that they send.
pub mod Madt
use operating_system_sctrach.Common.{
  ℕ, zero, suc, ◌+◌, ◌-◌, ◌*◌, ◌/◌, ◌%◌, ◌^◌, Bool, true, false, not, ◌&&◌, ◌||◌, ltb, leb, ◌==◌,
  if◌then◌else◌, bit_or,
}
use operating_system_sctrach.Common.Memory.{write}

abbrev pub Bytes : Type 0
Bytes = ℕ → ℕ

-- Little-endian words.
unfoldable pub word32 : Bytes → ℕ → ℕ
word32 m a = m a + m (a + 1) * 2 ^ 8 + m (a + 2) * 2 ^ 16 + m (a + 3) * 2 ^ 24

unfoldable pub word64 : Bytes → ℕ → ℕ
unfolding word32
word64 m a = word32 m a + word32 m (a + 4) * 2 ^ 32

-- `sizeof(ACPI_SDT_HEADER)`
abbrev pub header_size : ℕ
header_size = 36

abbrev pub max_cpus : ℕ
max_cpus = 32

pub record Apic : Type 0 where
  pub apic_ids : ℕ → ℕ
  pub cpu_count : ℕ
  pub lapic_base : ℕ
  pub ticks_per_ms : ℕ

-- The sum of the loop of `acpi_validate_checksum` over the first `n` bytes.
unfoldable pub sum_bytes : Bytes → ℕ → ℕ → ℕ
sum_bytes m a zero = 0
sum_bytes m a (suc n) = (sum_bytes m a n + m (a + n)) % 256

unfoldable pub acpi_validate_checksum : Bytes → ℕ → ℕ → Bool
acpi_validate_checksum m a len = sum_bytes m a len == 0

-- Whether a table has the four characters of a signature.
unfoldable pub has_signature : Bytes → ℕ → ℕ → ℕ → ℕ → ℕ → Bool
has_signature m a c0 c1 c2 c3 =
    (m a == c0) && (m (a + 1) == c1) && (m (a + 2) == c2) && (m (a + 3) == c3)

-- "APIC"
abbrev pub is_madt : Bytes → ℕ → Bool
is_madt m a = has_signature m a 65 80 73 67

-- A local APIC entry whose flags say that the processor is usable.
unfoldable pub is_usable : Bytes → ℕ → Bool
is_usable m entry = (m entry == 0) && not (word32 m (entry + 4) % 2 == 0)

-- What the loop does with one entry.
unfoldable pub add_cpu : Bytes → ℕ → Apic → Apic
add_cpu m entry s =
    if is_usable m entry && ltb s.cpu_count max_cpus
    then record s {
      apic_ids = write s.apic_ids s.cpu_count (m (entry + 3));
      cpu_count = s.cpu_count + 1;
    }
    else s

-- The loop over the entries from `entry` up to `end`, with fuel.
unfoldable pub walk : ℕ → Bytes → ℕ → ℕ → Apic → Apic
walk zero m entry end s = s
walk (suc fuel) m entry end s =
    let rest = walk fuel m (entry + m (entry + 1)) end (add_cpu m entry s) in
    if leb end entry || ltb (m (entry + 1)) 2 then s else rest

-- `parse_madt`; every entry that is passed has at least two bytes, so the table's length is fuel enough.
unfoldable pub parse_madt : Bytes → ℕ → Apic → Apic
parse_madt m madt s =
    let len = word32 m (madt + 4) in
    let s1 = record s { lapic_base = word32 m (madt + header_size); cpu_count = 0 } in
    let s2 = walk len m (madt + header_size + 8) (madt + len) s1 in
    if (madt == 0) || not (is_madt m madt)
    then s
    else if not (acpi_validate_checksum m madt len)
    then s
    else if s2.cpu_count == 0
    then record s2 { cpu_count = 1 }
    else s2

-- The loop of `find_table_in_xsdt` over the entries from `i` on, `n` of them left.
unfoldable pub find_entry : ℕ → Bytes → ℕ → ℕ → ℕ → ℕ → ℕ → ℕ → ℕ
find_entry zero m entries i c0 c1 c2 c3 = 0
find_entry (suc n) m entries i c0 c1 c2 c3 =
    let rest = find_entry n m entries (i + 1) c0 c1 c2 c3 in
    let table = word64 m (entries + 8 * i) in
    if not (table == 0) && has_signature m table c0 c1 c2 c3 then table else rest

-- `find_table_in_xsdt`; the length is 32 bits wide, `sizeof` makes the difference one of 64 bits, and the
-- count is cut to 32 bits.
unfoldable pub find_table_in_xsdt : Bytes → ℕ → ℕ → ℕ → ℕ → ℕ → ℕ
find_table_in_xsdt m xsdt c0 c1 c2 c3 =
    let count = (word32 m (xsdt + 4) + 2 ^ 64 - header_size) % 2 ^ 64 / 8 % 2 ^ 32 in
    if xsdt == 0 then 0 else find_entry count m (xsdt + header_size) 0 c0 c1 c2 c3

-- The first step of `apic_init`: the tables that the root pointer leads to.
unfoldable pub detect : Bytes → ℕ → Apic → Apic
detect m rsdp s =
    let xsdt = word64 m (rsdp + 24) in
    let madt =
      if leb 2 (m (rsdp + 15)) && not (xsdt == 0)
      then find_table_in_xsdt m xsdt 65 80 73 67
      else 0 in
    if rsdp == 0 then s else if madt == 0 then s else parse_madt m madt s

-- The second step of `apic_init`: the base address that the machine's register holds goes first.
unfoldable pub choose_base : ℕ → Apic → Apic
choose_base msr s =
    let base = msr / 2 ^ 12 % 2 ^ 36 * 2 ^ 12 in
    if base == 0 then s else record s { lapic_base = base }

-- The count that `apic_arm_timer` starts.
unfoldable pub timer_ticks : Apic → ℕ → ℕ
timer_ticks s microseconds =
    let ticks = s.ticks_per_ms * microseconds % 2 ^ 64 / 1000 % 2 ^ 32 in
    if ticks == 0 then 1 else ticks

-- `apic_calibrate_timer`, from the count that the timer has reached after 10 ms.
unfoldable pub calibrate : ℕ → Apic → Apic
calibrate current s = record s { ticks_per_ms = (0xFFFFFFFF - current) / 10 }

-- The vector of the page at which `apic_start_all_aps` starts the other processors.
unfoldable pub sipi_vector : ℕ → ℕ
sipi_vector trampoline = trampoline / 2 ^ 12 % 256
