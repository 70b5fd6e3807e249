-- ===== src/Firewall/Policy.antt =====
-- What firewall_filter_packet of kernel/security/firewall.c decides, against a declarative reading
-- of the rules.
use operating_system_sctrach.Common.{
  ℕ, ◌≡◌, refl, ◌≢◌, ◌⊎◌, Bool, true, false, List, ◌∷◌, ◌++◌, arith, none, ==_ne, All, All-map,
  update_first, update_first_hit, update_first_miss,
}
use operating_system_sctrach.Firewall.{
  Firewall, FirewallRule, RuleDirection, outbound, both, allow, drop, filter_packet, rule_matches,
  count_match, count_verdict, inspect, inc64, is_allow,
}

-- When a rule speaks of a packet: it is enabled, and each of its fields is a wildcard or agrees.
pub record Applies (dir : RuleDirection) (proto ip port : ℕ) (r : FirewallRule) : Type 0 where
  pub is_enabled : r.enabled ≢ 0
  pub for_direction : (r.direction ≡ both) ⊎ (r.direction ≡ dir)
  pub for_protocol : (r.protocol ≡ 0) ⊎ (r.protocol ≡ proto)
  pub for_port : (r.dst_port ≡ 0) ⊎ (r.dst_port ≡ port)
  pub for_ip : (r.dst_ip ≡ 0) ⊎ (r.dst_ip ≡ ip)

module _ (dir : RuleDirection) (proto ip port : ℕ) (r : FirewallRule) where
  rule_matches-Applies : rule_matches dir proto ip port r ≡ true → Applies dir proto ip port r
  unfolding rule_matches
  rule_matches-Applies h = record {
    is_enabled = ground arith;
    for_direction = ground arith;
    for_protocol = ground arith;
    for_port = ground arith;
    for_ip = ground arith;
  }

  Applies-rule_matches : Applies dir proto ip port r → rule_matches dir proto ip port r ≡ true
  unfolding rule_matches
  Applies-rule_matches h = ground arith

-- The state that a hit leaves: the packet is inspected, the rule's counter and one verdict counter
-- go up by one.
abbrev pub after_hit : Firewall → List FirewallRule → FirewallRule → List FirewallRule → Firewall
after_hit fw before r rest = record fw {
  rules = before ++ (count_match r ∷ rest);
  stats =
      count_verdict (record (fw.stats) { total_inspected = inc64 fw.stats.total_inspected })
        (is_allow r.action);
}

module _ (fw : Firewall) (dir : RuleDirection) (proto src_ip src_port ip port : ℕ) where
  misses :
      (rs : List FirewallRule)
      → All (λ r. ¬ Applies dir proto ip port r) rs
      → All (λ r. rule_matches dir proto ip port r ≡ false) rs
  misses rs h =
      All-map (λ r. ¬ Applies dir proto ip port r) (λ r. rule_matches dir proto ip port r ≡ false)
        rs
        (λ r no_match.
          not_true (rule_matches dir proto ip port r)
            (λ e. no_match (rule_matches-Applies dir proto ip port r e)))
        h
    where
      not_true : (b : Bool) → (b ≡ true → ⊥) → b ≡ false
      not_true true k = absurd (k refl)
      not_true false k = refl

  -- When the firewall is active, the first rule that applies to a packet decides it: the packet
  -- gets that rule's action, that rule's match counter and the inspected counter go up by one, as
  -- does the allowed counter for ALLOW or the blocked counter for any other action; all other
  -- rules and fields stay.
  pub filter_packet-first :
      (before : List FirewallRule) (r : FirewallRule) (rest : List FirewallRule)
      → fw.stats.firewall_active ≢ 0
      → fw.rules ≡ before ++ (r ∷ rest)
      → All (λ q. ¬ Applies dir proto ip port q) before
      → Applies dir proto ip port r
      → filter_packet fw dir proto src_ip src_port ip port ≡ (after_hit fw before r rest, r.action)
  unfolding filter_packet
  filter_packet-first before r rest on e no_hit hit = rw (
    ==_ne fw.stats.firewall_active 0 on,
    e,
    update_first_hit (rule_matches dir proto ip port) count_match before r rest
        (misses before no_hit) (Applies-rule_matches dir proto ip port r hit),
  )

  miss :
      All (λ q. ¬ Applies dir proto ip port q) fw.rules
      → update_first (rule_matches dir proto ip port) count_match fw.rules ≡ none
  miss no_hit =
      update_first_miss (rule_matches dir proto ip port) count_match fw.rules
        (misses fw.rules no_hit)

  -- When the firewall is active and no rule applies to an outbound packet, the packet is allowed:
  -- the inspected and the allowed counters go up by one, and nothing else changes.
  pub filter_packet-default_allow :
      fw.stats.firewall_active ≢ 0
      → All (λ q. ¬ Applies dir proto ip port q) fw.rules
      → dir ≡ outbound
      → filter_packet fw dir proto src_ip src_port ip port
        ≡ (record (inspect fw) { stats = count_verdict (inspect fw).stats true }, allow)
  unfolding filter_packet
  filter_packet-default_allow on no_hit e =
      rw (==_ne fw.stats.firewall_active 0 on, miss no_hit) (ground arith)

  -- When the firewall is active and no rule applies to a packet that is not outbound, the packet is
  -- dropped: the inspected and the blocked counters go up by one, and nothing else changes.
  pub filter_packet-default_drop :
      fw.stats.firewall_active ≢ 0
      → All (λ q. ¬ Applies dir proto ip port q) fw.rules
      → dir ≢ outbound
      → filter_packet fw dir proto src_ip src_port ip port
        ≡ (record (inspect fw) { stats = count_verdict (inspect fw).stats false }, drop)
  unfolding filter_packet
  filter_packet-default_drop on no_hit e =
      rw (==_ne fw.stats.firewall_active 0 on, miss no_hit) (ground arith)
