-- ===== src/Firewall.antt =====
-- kernel/security/firewall.h and firewall.c: the rule table, the packet filter and its statistics.
-- The file's static variables are the fields of `Firewall`; each function takes the state and
-- returns the new one.
pub mod Policy
pub mod Accounting
pub mod Rules
pub mod Reach
mod Tests
use operating_system_sctrach.Common.{
  ℕ, ◌+◌, ◌-◌, ◌%◌, ◌^◌, Bool, true, false, not, ◌&&◌, List, [], ◌∷◌, map, Option, none, some, ltb,
  ◌==◌, if◌then◌else◌, set, get_elem?, codes, update_first,
}
use operating_system_sctrach.Common.Int.{ℤ, pos, negsuc, signed32}

abbrev pub max_firewall_rules : ℕ
max_firewall_rules = 64

abbrev pub proto_all : ℕ
proto_all = 0

abbrev pub proto_tcp : ℕ
proto_tcp = 6

abbrev pub proto_udp : ℕ
proto_udp = 17

pub data FirewallAction : Type 0 where
  allow drop reject log : FirewallAction

pub data RuleDirection : Type 0 where
  inbound outbound both : RuleDirection

-- The values of the C enumerations, which `==` compares.
abbrev pub direction_code : RuleDirection → ℕ
direction_code inbound = 0
direction_code outbound = 1
direction_code both = 2

abbrev pub is_allow : FirewallAction → Bool
is_allow allow = true
is_allow _ = false

pub record FirewallRule : Type 0 where
  pub rule_id : ℕ
  pub name : List ℕ
  pub enabled : ℕ
  pub direction : RuleDirection
  pub protocol : ℕ
  pub src_ip : ℕ
  pub src_mask : ℕ
  pub src_port : ℕ
  pub dst_ip : ℕ
  pub dst_mask : ℕ
  pub dst_port : ℕ
  pub action : FirewallAction
  pub matched_packets : ℕ

pub record FirewallStats : Type 0 where
  pub total_inspected : ℕ
  pub total_allowed : ℕ
  pub total_blocked : ℕ
  pub active_rules_count : ℕ
  pub stealth_mode_enabled : ℕ
  pub firewall_active : ℕ

pub record Firewall : Type 0 where
  pub rules : List FirewallRule
  pub next_rule_id : ℕ
  pub stats : FirewallStats

abbrev pub inc32 : ℕ → ℕ
inc32 n = (n + 1) % 2 ^ 32

abbrev pub inc64 : ℕ → ℕ
inc64 n = (n + 1) % 2 ^ 64

-- The loop of `str_copy` at index `i`; the list is `src + i`.
str_copy_from : List ℕ → List ℕ → ℕ → ℕ → List ℕ
str_copy_from dest [] max i = set dest i 0
str_copy_from dest (c ∷ cs) max i =
    let rest = str_copy_from (set dest i c) cs max (i + 1) in
    if ltb (i + 1) max && not (c == 0) then rest else set dest i 0

pub str_copy : List ℕ → List ℕ → ℕ → List ℕ
unfolding str_copy_from
str_copy dest src max = str_copy_from dest src max 0

-- `!g_rules[i].enabled`
abbrev pub is_disabled : FirewallRule → Bool
is_disabled r = r.enabled == 0

-- What `firewall_add_rule` writes into the slot; the source fields and the mask keep their values.
abbrev pub fill_rule :
    ℕ → List ℕ → RuleDirection → ℕ → ℕ → ℕ → FirewallAction → FirewallRule → FirewallRule
fill_rule id n dir proto ip port act r = record r {
  rule_id = id;
  name = str_copy r.name n 32;
  enabled = 1;
  direction = dir;
  protocol = proto;
  dst_ip = ip;
  dst_port = port;
  action = act;
  matched_packets = 0;
}

add_rule_found : Firewall → Option (ℕ × FirewallRule × List FirewallRule) → Firewall × ℤ
add_rule_found fw none = (fw, negsuc 0)
add_rule_found fw (some (i, r, rs)) = (
  record fw {
    rules = rs;
    next_rule_id = inc32 fw.next_rule_id;
    stats = record (fw.stats) { active_rules_count = inc32 fw.stats.active_rules_count };
  },
  signed32 r.rule_id,
)

pub add_rule : Firewall → List ℕ → RuleDirection → ℕ → ℕ → ℕ → FirewallAction → Firewall × ℤ
unfolding add_rule_found
add_rule fw n dir proto ip port act =
    add_rule_found fw
      (update_first is_disabled (fill_rule fw.next_rule_id n dir proto ip port act) fw.rules)

pub set_active : Firewall → ℕ → Firewall
set_active fw active = record fw { stats = record (fw.stats) { firewall_active = active } }

-- `g_rules[i].enabled && g_rules[i].rule_id == rule_id`
abbrev pub has_id : ℕ → FirewallRule → Bool
has_id id r = not (r.enabled == 0) && r.rule_id == id

abbrev pub clear_rule : FirewallRule → FirewallRule
clear_rule r = record r { enabled = 0; rule_id = 0 }

delete_rule_found : Firewall → Option (ℕ × FirewallRule × List FirewallRule) → Firewall
delete_rule_found fw none = fw
delete_rule_found fw (some (i, r, rs)) = record fw {
  rules = rs;
  stats = record (fw.stats) {
    active_rules_count =
        if ltb 0 fw.stats.active_rules_count
        then fw.stats.active_rules_count - 1
        else fw.stats.active_rules_count;
  };
}

pub delete_rule : Firewall → ℕ → Firewall
unfolding delete_rule_found
delete_rule fw id = delete_rule_found fw (update_first (has_id id) clear_rule fw.rules)

-- The chain of `continue` tests of `firewall_filter_packet`.
pub rule_matches : RuleDirection → ℕ → ℕ → ℕ → FirewallRule → Bool
rule_matches dir proto ip port r =
    not (r.enabled == 0)
    && not (
        not (direction_code r.direction == 2)
        && not (direction_code r.direction == direction_code dir))
    && not (not (r.protocol == proto_all) && not (r.protocol == proto))
    && not (not (r.dst_port == 0) && not (r.dst_port == port))
    && not (not (r.dst_ip == 0) && not (r.dst_ip == ip))

abbrev pub count_match : FirewallRule → FirewallRule
count_match r = record r { matched_packets = inc64 r.matched_packets }

-- `total_allowed++` or `total_blocked++`
abbrev pub count_verdict : FirewallStats → Bool → FirewallStats
count_verdict s ok =
    if ok
    then record s { total_allowed = inc64 s.total_allowed }
    else record s { total_blocked = inc64 s.total_blocked }

-- The tail of `firewall_filter_packet`, after the loop: a rule was hit, or the default policy.
filter_verdict :
    Firewall
    → RuleDirection
    → Option (ℕ × FirewallRule × List FirewallRule)
    → Firewall × FirewallAction
filter_verdict fw dir (some (i, r, rs)) =
    (record fw { rules = rs; stats = count_verdict fw.stats (is_allow r.action) }, r.action)
filter_verdict fw dir none =
    if direction_code dir == 1
    then (record fw { stats = count_verdict fw.stats true }, allow)
    else (record fw { stats = count_verdict fw.stats false }, drop)

abbrev pub inspect : Firewall → Firewall
inspect fw = record fw {
  stats = record (fw.stats) { total_inspected = inc64 fw.stats.total_inspected };
}

pub filter_packet : Firewall → RuleDirection → ℕ → ℕ → ℕ → ℕ → ℕ → Firewall × FirewallAction
unfolding filter_verdict
filter_packet fw dir proto src_ip src_port dst_ip dst_port =
    if fw.stats.firewall_active == 0
    then (fw, allow)
    else filter_verdict (inspect fw) dir
        (update_first (rule_matches dir proto dst_ip dst_port) count_match fw.rules)

abbrev pub loopback_name : List ℕ
loopback_name = codes "Allow Loopback (127.0.0.1)"

-- `firewall_init`: every slot is freed, the statistics are reset and the seven default rules added.
abbrev pub reset : Firewall → Firewall
reset fw = record fw {
  rules = map clear_rule fw.rules;
  stats = record {
    total_inspected = 0;
    total_allowed = 0;
    total_blocked = 0;
    active_rules_count = 0;
    stealth_mode_enabled = 1;
    firewall_active = 1;
  };
}

pub init : Firewall → Firewall
init fw =
    let f1 = (add_rule (reset fw) loopback_name both proto_all 0x7F000001 0 allow).0 in
    let f2 = (add_rule f1 (codes "Allow Outbound DNS (UDP 53)") outbound proto_udp 0 53 allow).0 in
    let f3 =
      (add_rule f2 (codes "Allow Outbound Web (TCP 443)") outbound proto_tcp 0 443 allow).0 in
    let f4 = (add_rule f3 (codes "Allow Outbound HTTP (TCP 80)") outbound proto_tcp 0 80 allow).0 in
    let f5 = (add_rule f4 (codes "Block SMB Exploits (TCP 445)") inbound proto_tcp 0 445 drop).0 in
    let f6 = (add_rule f5 (codes "Block NetBIOS Probe (UDP 137)") inbound proto_udp 0 137 drop).0 in
    (add_rule f6 (codes "Block Insecure Telnet (TCP 23)") inbound proto_tcp 0 23 drop).0

pub get_stats : Firewall → FirewallStats
get_stats fw = fw.stats

-- `none` is NULL.
pub get_rule : Firewall → ℤ → Option FirewallRule
get_rule fw (pos i) = if ltb i max_firewall_rules then get_elem? fw.rules i else none
get_rule fw (negsuc n) = none
