-- ===== src/Session/Smep.antt =====
-- security_enable_smep_smap of kernel/security/session.c.
use operating_system_sctrach.Common.{ℕ, ◌/◌, ◌%◌, ◌^◌, ◌≡◌, ◌&&◌, ◌||◌, arith, leb}
use operating_system_sctrach.Session.{enable_smep_smap, has_bit}

-- Afterwards bit 20 of CR4 (SMEP) is set if it was before, or if CPUID has leaf 7 and reports SMEP
-- there; bit 21 (SMAP) likewise; and every other bit of CR4 is as it was.
pub enable_smep_smap-bits :
    (max_leaf ebx cr4 : ℕ)
    → let new = enable_smep_smap max_leaf ebx cr4 in
      (has_bit new 20 ≡ (has_bit cr4 20 || (leb 7 max_leaf && has_bit ebx 7)))
      × (has_bit new 21 ≡ (has_bit cr4 21 || (leb 7 max_leaf && has_bit ebx 20)))
      × (new % 2 ^ 20 ≡ cr4 % 2 ^ 20)
      × (new / 2 ^ 22 ≡ cr4 / 2 ^ 22)
unfolding enable_smep_smap
enable_smep_smap-bits max_leaf ebx cr4 = ground arith
