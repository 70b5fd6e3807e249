-- ===== src/Services/DrvMgr.antt =====
-- The PCI devices of services/drvmgr/drvmgr.h and drvmgr.c. `config` is what the configuration space
-- answers to the address that `pci_config_read32` puts together: a bus, a slot, a function and an offset
-- that is a multiple of 4. Writing to the configuration space is port access and is left out, as are the
-- registered drivers, which no function reads, and the texts sent by `drvmgr_publish_all`.
pub mod Scan
use operating_system_sctrach.Common.{
  ℕ, zero, suc, ◌+◌, ◌-◌, ◌*◌, ◌/◌, ◌%◌, ◌^◌, List, [], ◌∷◌, ◌++◌, Option, none, some, Bool, true,
  false, ◌&&◌, ◌||◌, ltb, leb, ◌==◌, if◌then◌else◌, find_first, modify, length, codes,
}

abbrev pub max_devices : ℕ
max_devices = 64

pub record PciDevice : Type 0 where
  pub bus : ℕ
  pub slot : ℕ
  pub func : ℕ
  pub vendor_id : ℕ
  pub device_id : ℕ
  pub class_code : ℕ
  pub subclass : ℕ
  pub prog_if : ℕ
  pub revision : ℕ
  pub header_type : ℕ
  pub bar : List ℕ
  pub irq_line : ℕ
  pub irq_pin : ℕ
  pub driver_name : List ℕ
  pub device_name : List ℕ
  pub manufacturer : List ℕ
  pub status : ℕ
  pub driver_signed : ℕ

abbrev pub Config : Type 0
Config = ℕ → ℕ → ℕ → ℕ → ℕ

-- `pci_config_read32`
unfoldable pub read32 : Config → ℕ → ℕ → ℕ → ℕ → ℕ
read32 config bus slot func offset = config bus slot func (offset - offset % 4) % 2 ^ 32

-- `pci_config_read16`
unfoldable pub read16 : Config → ℕ → ℕ → ℕ → ℕ → ℕ
read16 config bus slot func offset =
    read32 config bus slot func offset / 2 ^ (offset / 2 % 2 * 16) % 2 ^ 16

-- `pci_config_read8`
unfoldable pub read8 : Config → ℕ → ℕ → ℕ → ℕ → ℕ
read8 config bus slot func offset =
    read32 config bus slot func offset / 2 ^ (offset % 4 * 8) % 2 ^ 8

-- `pci_map_bar`
unfoldable pub map_bar : Config → ℕ → ℕ → ℕ → ℕ → ℕ
map_bar config bus slot func bar_idx =
    let bar = read32 config bus slot func (0x10 + bar_idx * 4) in
    if leb 6 bar_idx then 0 else if bar % 2 == 1 then bar - bar % 4 else bar - bar % 16

-- No device answers with this vendor.
abbrev pub is_absent : ℕ → Bool
is_absent vendor = (vendor == 0xFFFF) || (vendor == 0)

abbrev pub named : PciDevice → List ℕ → List ℕ → List ℕ → PciDevice
named d driver device maker = record d {
  driver_name = driver;
  device_name = device;
  manufacturer = maker;
}

-- The names that `drvmgr_scan_bus` gives a device.
unfoldable pub identify : PciDevice → PciDevice
identify d =
    if (d.vendor_id == 0x8086) && (d.device_id == 0x100E)
    then named d (codes "e1000") (codes "Intel PRO/1000 Gigabit Adapter")
        (codes "Intel Corporation")
    else if (d.vendor_id == 0x10EC) && (d.device_id == 0x8139)
    then named d (codes "rtl8139") (codes "Realtek RTL8139 Fast Ethernet")
        (codes "Realtek Semiconductor")
    else if (d.class_code == 0x0C) && (d.subclass == 0x03)
    then named d (codes "xhci_hcd") (codes "xHCI USB 3.0 Host Controller") (codes "Generic USB")
    else if d.class_code == 0x03
    then named d (codes "vbe") (codes "Standard VGA / VESA Display") (codes "VESA Compliant")
    else named d (codes "pci_generic") (codes "PCI Standard Device") (codes "Generic")

-- The fields that `drvmgr_scan_bus` reads.
unfoldable pub probe : Config → ℕ → ℕ → ℕ → PciDevice
probe config bus slot func = record {
  bus = bus;
  slot = slot;
  func = func;
  vendor_id = read16 config bus slot func 0;
  device_id = read16 config bus slot func 0x02;
  class_code = read8 config bus slot func 0x0B;
  subclass = read8 config bus slot func 0x0A;
  prog_if = read8 config bus slot func 0x09;
  revision = read8 config bus slot func 0x08;
  header_type = read8 config bus slot 0 0x0E;
  bar =
      read32 config bus slot func 0x10
      ∷ read32 config bus slot func 0x14
      ∷ read32 config bus slot func 0x18
      ∷ read32 config bus slot func 0x1C
      ∷ read32 config bus slot func 0x20
      ∷ read32 config bus slot func 0x24
      ∷ [];
  irq_line = read8 config bus slot func 0x3C;
  irq_pin = read8 config bus slot func 0x3D;
  driver_name = [];
  device_name = [];
  manufacturer = [];
  status = 1;
  driver_signed = 1;
}

-- The inner loop over `n` functions from `func` on. The result says whether the scan goes on: a full table
-- ends it.
unfoldable pub scan_functions : Config → ℕ → ℕ → ℕ → ℕ → List PciDevice → List PciDevice × Bool
scan_functions config bus slot zero func devices = (devices, true)
scan_functions config bus slot (suc n) func devices =
    let skipped = scan_functions config bus slot n (func + 1) devices in
    let found =
      scan_functions config bus slot n (func + 1)
        (devices ++ (identify (probe config bus slot func) ∷ [])) in
    if is_absent (read16 config bus slot func 0)
    then skipped
    else if leb max_devices (length devices)
    then (devices, false)
    else found

-- The functions of a slot that are looked at.
unfoldable pub max_func : Config → ℕ → ℕ → ℕ
max_func config bus slot = if read8 config bus slot 0 0x0E / 2 ^ 7 % 2 == 1 then 8 else 1

-- The outer loop over `n` slots from `slot` on.
unfoldable pub scan_slots : Config → ℕ → ℕ → ℕ → List PciDevice → List PciDevice
scan_slots config bus zero slot devices = devices
scan_slots config bus (suc n) slot devices =
    let (found, more) = scan_functions config bus slot (max_func config bus slot) 0 devices in
    let next = scan_slots config bus n (slot + 1) found in
    let skipped = scan_slots config bus n (slot + 1) devices in
    if is_absent (read16 config bus slot 0 0) then skipped else if more then next else found

-- `drvmgr_scan_bus`
unfoldable pub scan_bus : Config → ℕ → List PciDevice → List PciDevice
scan_bus config bus devices = scan_slots config bus 32 0 devices

-- `drvmgr_init`, which returns the length of the list.
unfoldable pub init : Config → List PciDevice
init config = scan_bus config 0 []

abbrev pub slot_of : Option (ℕ × PciDevice) → Option ℕ
slot_of none = none
slot_of (some (i, _)) = some i

-- `drvmgr_find_device`
unfoldable pub find_device : List PciDevice → ℕ → ℕ → Option ℕ
find_device devices vendor device =
    slot_of (find_first (λ d. (d.vendor_id == vendor) && (d.device_id == device)) devices)

-- `drvmgr_find_by_location`
unfoldable pub find_by_location : List PciDevice → ℕ → ℕ → ℕ → Option ℕ
find_by_location devices bus slot func =
    slot_of (find_first (λ d. (d.bus == bus) && (d.slot == slot) && (d.func == func)) devices)

-- `drvmgr_set_device_enabled` on an entry of the table.
unfoldable pub set_device_enabled : List PciDevice → ℕ → ℕ → List PciDevice
set_device_enabled devices i enabled =
    modify devices i (λ d. record d { status = if enabled == 0 then 3 else 1 })
