-- ===== src/Firewall/Tests.antt =====
-- Runs of the model of kernel/security/firewall.c, and its theorems at concrete tables.
use operating_system_sctrach.Common.{
  ◌≡◌, refl, inl, inr, List, [], ◌∷◌, arith, replicate, update_first,
}
use operating_system_sctrach.Common.Int.{pos}
use operating_system_sctrach.Firewall.{
  Firewall, FirewallRule, FirewallStats, inbound, both, allow, drop, init, add_rule, filter_packet,
  str_copy, rule_matches,
}
use operating_system_sctrach.Firewall.Policy.{after_hit, filter_packet-first}
use operating_system_sctrach.Firewall.Accounting.{
  Inv, Call, adds, deletes, filters, run, run-init-Inv,
}

abbrev blank : FirewallRule
blank = record {
  rule_id = 0;
  name = replicate 32 0;
  enabled = 0;
  direction = inbound;
  protocol = 0;
  src_ip = 0;
  src_mask = 0;
  src_port = 0;
  dst_ip = 0;
  dst_mask = 0;
  dst_port = 0;
  action = allow;
  matched_packets = 0;
}

abbrev quiet : FirewallStats
quiet = record {
  total_inspected = 0;
  total_allowed = 0;
  total_blocked = 0;
  active_rules_count = 0;
  stealth_mode_enabled = 0;
  firewall_active = 0;
}

-- The zeroed statics of the file.
abbrev zeroed : Firewall
zeroed = record { rules = replicate 64 blank; next_rule_id = 1; stats = quiet }

abbrev block_telnet : FirewallRule
block_telnet = record blank { rule_id = 7; enabled = 1; protocol = 6; dst_port = 23; action = drop }

abbrev guarded : Firewall
guarded = record {
  rules = blank ∷ block_telnet ∷ [];
  next_rule_id = 8;
  stats = record quiet { firewall_active = 1; active_rules_count = 1 };
}

-- A telnet packet comes in after booting: the seventh default rule drops it.
boot_drops_telnet : (filter_packet (init zeroed) inbound 6 1 2 99 23).1 ≡ drop
unfolding filter_packet init add_rule update_first rule_matches
boot_drops_telnet = refl

add_rule_returns_id : (add_rule zeroed (97 ∷ []) both 0 0 0 drop).1 ≡ pos 1
unfolding add_rule update_first
add_rule_returns_id = refl

str_copy_cuts : str_copy (9 ∷ 9 ∷ 9 ∷ []) (97 ∷ 98 ∷ 99 ∷ 100 ∷ []) 3 ≡ 97 ∷ 98 ∷ 0 ∷ []
unfolding str_copy
str_copy_cuts = refl

filter_packet-first_example :
    filter_packet guarded inbound 6 1 2 99 23
    ≡ (after_hit guarded (blank ∷ []) block_telnet [], drop)
filter_packet-first_example =
    filter_packet-first guarded inbound 6 1 2 99 23 (blank ∷ []) block_telnet [] (λ e. omega arith)
      refl ((λ a. a.is_enabled refl), tt)
      (record {
        is_enabled = λ e. omega arith;
        for_direction = inr refl;
        for_protocol = inr refl;
        for_port = inr refl;
        for_ip = inl refl;
      })

abbrev blank_only : Firewall
blank_only = record guarded { rules = blank ∷ [] }

abbrev history : List Call
history = filters inbound 6 1 2 99 23 ∷ adds (97 ∷ []) both 0 0 0 drop ∷ deletes 3 ∷ []

run-init-Inv_example : Inv (run (init zeroed) history)
run-init-Inv_example = run-init-Inv zeroed history refl
