-- ===== src/Services/NetMgr.antt =====
-- The network manager of services/netmgr/netmgr.h and netmgr.c. The arrays are the lists of their entries
-- in use. The service's thread, the DHCP and DNS functions, which are stubs that return a constant, and
-- the fields of an interface that no function reads or writes are left out.
pub mod Routes
use operating_system_sctrach.Common.{
  ℕ, zero, suc, ◌+◌, ◌-◌, ◌%◌, ◌^◌, List, [], ◌∷◌, ◌++◌, Option, none, some, Bool, true, false,
  ◌&&◌, ltb, leb, ◌==◌, if◌then◌else◌, find_first, update_first, set, length, bit_and, codes,
  copy_text, same_text,
}
use operating_system_sctrach.Common.Int.{ℤ, pos, negsuc}
use operating_system_sctrach.GuiIpc.{Ipc, send_service_event}

abbrev pub max_routes : ℕ
max_routes = 32

pub record NetInterface : Type 0 where
  pub name : List ℕ
  pub type : ℕ
  pub ipv4 : ℕ
  pub netmask : ℕ
  pub gateway : ℕ
  pub dns : List ℕ
  pub dhcp_state : ℕ
  pub link_up : ℕ
  pub rx_bytes : ℕ
  pub rx_packets : ℕ

pub record RouteEntry : Type 0 where
  pub dest : ℕ
  pub netmask : ℕ
  pub gateway : ℕ
  pub iface : List ℕ
  pub metric : ℕ

pub record NetMgr : Type 0 where
  pub ifaces : List NetInterface
  pub routes : List RouteEntry

-- "eth0"
abbrev pub eth0_name : List ℕ
eth0_name = 101 ∷ 116 ∷ 104 ∷ 48 ∷ []

abbrev pub eth0 : NetInterface
eth0 = record {
  name = eth0_name;
  type = 0;
  ipv4 = 0x0F02000A;
  netmask = 0x00FFFFFF;
  gateway = 0x0202000A;
  dns = 0x0302000A ∷ [];
  dhcp_state = 3;
  link_up = 1;
  rx_bytes = 0;
  rx_packets = 0;
}

abbrev pub default_route : RouteEntry
default_route = record {
  dest = 0;
  netmask = 0;
  gateway = 0x0202000A;
  iface = eth0_name;
  metric = 1;
}

-- `netmgr_init_defaults`; entry 0 of the routes is overwritten, and is then the only one.
unfoldable pub init_defaults : NetMgr → NetMgr
init_defaults s = elim s.ifaces [
  | [] ↦ record { ifaces = eth0 ∷ []; routes = default_route ∷ [] }
  | i ∷ is ↦ s
]

unfoldable pub route : ℕ → ℕ → ℕ → List ℕ → RouteEntry
route dest netmask gateway iface = record {
  dest = dest;
  netmask = netmask;
  gateway = gateway;
  iface = copy_text 15 iface;
  metric = 10;
}

-- `netmgr_add_route`; a NULL interface is `none`.
unfoldable pub add_route : NetMgr → ℕ → ℕ → ℕ → Option (List ℕ) → NetMgr × ℤ
add_route s dest netmask gateway none = (s, negsuc 0)
add_route s dest netmask gateway (some iface) =
    if leb max_routes (length s.routes)
    then (s, negsuc 0)
    else (record s { routes = s.routes ++ (route dest netmask gateway iface ∷ []) }, pos 0)

-- The list without its last entry, and the last entry.
unfoldable pub without_last : List RouteEntry → List RouteEntry
without_last [] = []
without_last (r ∷ []) = []
without_last (r ∷ q ∷ rs) = r ∷ without_last (q ∷ rs)

unfoldable pub last_or : RouteEntry → List RouteEntry → RouteEntry
last_or d [] = d
last_or d (r ∷ rs) = last_or r rs

abbrev pub is_route : ℕ → ℕ → RouteEntry → Bool
is_route dest netmask r = (r.dest == dest) && (r.netmask == netmask)

-- `netmgr_del_route`: the last entry takes the place of the one that is deleted.
unfoldable pub del_route : NetMgr → ℕ → ℕ → NetMgr
del_route s dest netmask = elim (find_first (is_route dest netmask) s.routes) [
  | none ↦ s
  | some (i, r) ↦ record s { routes = set (without_last s.routes) i (last_or r s.routes) }
]

abbrev pub entry_of : Option (ℕ × RouteEntry) → Option RouteEntry → Option RouteEntry
entry_of none other = other
entry_of (some (_, r)) other = some r

abbrev pub first_route : List RouteEntry → Option RouteEntry
first_route [] = none
first_route (r ∷ rs) = some r

-- `netmgr_lookup_route`
unfoldable pub lookup_route : NetMgr → ℕ → Option RouteEntry
lookup_route s dest_ip =
    entry_of (find_first (λ (r : RouteEntry). bit_and dest_ip r.netmask == r.dest) s.routes)
      (first_route s.routes)

-- `netmgr_get_iface`: the interface and its slot.
unfoldable pub get_iface : NetMgr → List ℕ → Option (ℕ × NetInterface)
get_iface s name = find_first (λ (i : NetInterface). same_text i.name name) s.ifaces

-- `netmgr_publish_status`; `buf` is the stack frame of the function it calls.
unfoldable pub publish_status : (ℕ → ℕ) → NetMgr → Ipc → List ℕ → Ipc
publish_status buf s ipc name = elim (get_iface s name) [
  | none ↦ ipc
  | some (_, i) ↦
      send_service_event buf ipc (codes "NetMgr") 1 10
        (if i.link_up == 0 then codes "Disconnected" else codes "Connected")
]

-- `netmgr_on_link_change`
unfoldable pub on_link_change : (ℕ → ℕ) → NetMgr → Ipc → List ℕ → ℕ → NetMgr × Ipc
on_link_change buf s ipc name link_up = elim (get_iface s name) [
  | none ↦ (s, ipc)
  | some (k, i) ↦
      let s' = record s { ifaces = set s.ifaces k (record i { link_up = link_up }) } in
      (s', publish_status buf s' ipc name)
]

-- `netmgr_on_packet_received` with data.
unfoldable pub on_packet_received : NetMgr → List ℕ → ℕ → NetMgr
on_packet_received s name len = elim (get_iface s name) [
  | none ↦ s
  | some (k, i) ↦ if len == 0 then s else record s {
    ifaces = set s.ifaces k (record i {
      rx_packets = (i.rx_packets + 1) % 2 ^ 32;
      rx_bytes = (i.rx_bytes + len) % 2 ^ 32;
    });
  }
]
