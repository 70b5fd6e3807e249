-- ===== src/Services/DrvMgr/Scan.antt =====
-- What the scan of services/drvmgr/drvmgr.c records.
use operating_system_sctrach.Common.{
  ℕ, zero, suc, ◌+◌, ◌≤◌, ◌<◌, ◌≡◌, refl, ap, ◌∙◌, List, [], ◌∷◌, ◌++◌, Bool, true, false, leb,
  if◌then◌else◌, length, length-append, All, All-append, arith, Bool-cases, inl, inr, ◌&&◌, ◌==◌,
}
use operating_system_sctrach.Services.DrvMgr.{
  PciDevice, Config, read16, is_absent, identify, probe, scan_functions, scan_slots, scan_bus, init,
  max_func, max_devices,
}

-- The entry is a device that answers at its place, under the vendor recorded.
pub record IsPresent (config : Config) (d : PciDevice) : Type 0 where
  pub slot_lt : d.slot < 32
  pub func_lt : d.func < 8
  pub vendor : d.vendor_id ≡ read16 config d.bus d.slot d.func 0
  pub answers : is_absent d.vendor_id ≡ false

-- The table holds at most 64 devices, and all are present.
abbrev pub IsTable : Config → List PciDevice → Type 0
IsTable config ds = (length ds ≤ max_devices) × All (IsPresent config) ds

-- The device keeps its place and its vendor.
abbrev Keeps : PciDevice → PciDevice → Type 0
Keeps d e = (e.bus ≡ d.bus) × (e.slot ≡ d.slot) × (e.func ≡ d.func) × (e.vendor_id ≡ d.vendor_id)

Keeps-if :
    (d : PciDevice) (x y : PciDevice) (b : Bool)
    → Keeps d x
    → Keeps d y
    → Keeps d (if b then x else y)
Keeps-if d x y true p q = p
Keeps-if d x y false p q = q

identify-Keeps : (d : PciDevice) → Keeps d (identify d)
unfolding identify
identify-Keeps d =
    Keeps-if d _ _ ((d.vendor_id == 0x8086) && (d.device_id == 0x100E)) (refl, refl, refl, refl)
      (Keeps-if d _ _ ((d.vendor_id == 0x10EC) && (d.device_id == 0x8139)) (refl, refl, refl, refl)
        (Keeps-if d _ _ ((d.class_code == 0x0C) && (d.subclass == 0x03)) (refl, refl, refl, refl)
          (Keeps-if d _ _ (d.class_code == 0x03) (refl, refl, refl, refl)
            (refl, refl, refl, refl))))

probe-IsPresent :
    (config : Config) (bus slot func : ℕ)
    → slot < 32
    → func < 8
    → is_absent (read16 config bus slot func 0) ≡ false
    → IsPresent config (identify (probe config bus slot func))
unfolding probe
probe-IsPresent config bus slot func hs hf h =
    let (b, s, f, v) = identify-Keeps (probe config bus slot func) in
    record {
      slot_lt = omega (arith, s, hs);
      func_lt = omega (arith, f, hf);
      vendor = v ∙ rw (b, s, f) refl;
      answers = ap is_absent v ∙ h;
    }

scan_functions-IsTable :
    (config : Config) (bus slot n func : ℕ) (ds : List PciDevice)
    → slot < 32
    → func + n ≤ 8
    → IsTable config ds
    → IsTable config (scan_functions config bus slot n func ds).0
unfolding scan_functions
scan_functions-IsTable config bus slot zero func ds hs h v = v
scan_functions-IsTable config bus slot (suc n) func ds hs h v =
    let d = identify (probe config bus slot func) in
    elim (Bool-cases (is_absent (read16 config bus slot func 0))) [
      | inl a ↦
          rw (scan_functions, a)
            (scan_functions-IsTable config bus slot n (func + 1) ds hs (omega arith) v)
      | inr a ↦ elim (Bool-cases (leb max_devices (length ds))) [
        | inl k ↦ rw (scan_functions, a, k) v
        | inr k ↦
            let room : length ds < max_devices = ground arith in
            rw (scan_functions, a, k)
              (scan_functions-IsTable config bus slot n (func + 1) (ds ++ (d ∷ [])) hs (omega arith)
                (
                  omega (arith, length-append ds (d ∷ []), room),
                  All-append (IsPresent config) ds (d ∷ []) v.1
                      (probe-IsPresent config bus slot func hs (omega arith) a, tt),
                ))
      ]
    ]

max_func-le : (config : Config) (bus slot : ℕ) → max_func config bus slot ≤ 8
unfolding max_func
max_func-le config bus slot = ground arith

scan_slots-IsTable :
    (config : Config) (bus n slot : ℕ) (ds : List PciDevice)
    → slot + n ≤ 32
    → IsTable config ds
    → IsTable config (scan_slots config bus n slot ds)
unfolding scan_slots
scan_slots-IsTable config bus zero slot ds h v = v
scan_slots-IsTable config bus (suc n) slot ds h v =
    let found = scan_functions config bus slot (max_func config bus slot) 0 ds in
    let w =
      scan_functions-IsTable config bus slot (max_func config bus slot) 0 ds (omega arith)
        (omega (arith, max_func-le config bus slot)) v in
    elim (Bool-cases (is_absent (read16 config bus slot 0 0))) [
      | inl a ↦ rw (scan_slots, a) (scan_slots-IsTable config bus n (slot + 1) ds (omega arith) v)
      | inr a ↦ elim (Bool-cases found.1) [
        | inl k ↦
            rw (scan_slots, a, k)
              (scan_slots-IsTable config bus n (slot + 1) found.0 (omega arith) w)
        | inr k ↦ rw (scan_slots, a, k) w
      ]
    ]

-- `drvmgr_init` records at most 64 devices, on slots 0 to 31 and functions 0 to 7, and each of them answers
-- at its place with the vendor recorded for it.
pub init-IsTable : (config : Config) → IsTable config (init config)
unfolding init scan_bus
init-IsTable config = scan_slots-IsTable config 0 32 0 [] (omega arith) (omega arith, tt)
