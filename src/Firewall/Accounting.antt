-- ===== src/Firewall/Accounting.antt =====
-- The statistics of kernel/security/firewall.c agree with the rule table and with one another after
-- any sequence of calls.
use operating_system_sctrach.Common.{
  ℕ, ◌+◌, ◌%◌, ◌^◌, ◌≤◌, ◌≡◌, refl, inl, inr, Bool, true, false, not, List, [], ◌∷◌, map, arith,
  ◌==◌, if◌then◌else◌, length, length-map, count, update_first_cases, Hit, count-Hit, length-append,
  Bool-cases,
}
use operating_system_sctrach.Firewall.{
  Firewall, FirewallRule, FirewallAction, RuleDirection, allow, drop, init, reset, add_rule,
  delete_rule, set_active, filter_packet, rule_matches, count_match, count_verdict, inspect,
  is_allow, direction_code, is_disabled, clear_rule, fill_rule, has_id,
}

abbrev pub is_on : FirewallRule → Bool
is_on r = not (r.enabled == 0)

-- The table keeps its size; the count of active rules is the number of enabled slots; every
-- inspected packet was allowed or blocked (the counters wrap at 2 ^ 64).
pub record Inv (fw : Firewall) : Type 0 where
  pub size : length fw.rules ≡ 64
  pub active : fw.stats.active_rules_count ≡ count is_on fw.rules
  pub accounted :
      fw.stats.total_inspected % 2 ^ 64 ≡ (fw.stats.total_allowed + fw.stats.total_blocked) % 2 ^ 64

count-le : (q : FirewallRule → Bool) (rs : List FirewallRule) → count q rs ≤ length rs
count-le q [] = omega arith
count-le q (r ∷ rs) = ground (arith, count-le q rs)

length-Hit :
    {p : FirewallRule → Bool} {f : FirewallRule → FirewallRule} {xs ys : List FirewallRule} {i : ℕ}
    {y : FirewallRule}
    → Hit p f xs i y ys
    → length ys ≡ length xs
length-Hit {f = f} h =
    rw (h.now, h.was)
      (omega
        (arith, length-append h.before (h.at ∷ h.after), length-append h.before (f h.at ∷ h.after)))

module _ (fw : Firewall) (v : Inv fw) where
  add_rule-Inv :
      (n : List ℕ) (dir : RuleDirection) (proto ip port : ℕ) (act : FirewallAction)
      → Inv (add_rule fw n dir proto ip port act).0
  unfolding add_rule
  add_rule-Inv n dir proto ip port act =
      elim (update_first_cases is_disabled (fill_rule fw.next_rule_id n dir proto ip port act)
        fw.rules) [
          | inl (h, e) ↦ rw e v
          | inr (i, y, ys, h, e) ↦ rw e (record {
            size = omega (arith, length-Hit h, v.size);
            active = ground (
              arith,
              h.passes,
              count-Hit is_on h,
              length-Hit h,
              count-le is_on ys,
              v.active,
              v.size,
            );
            accounted = v.accounted;
          })
        ]

  delete_rule-Inv : (id : ℕ) → Inv (delete_rule fw id)
  unfolding delete_rule
  delete_rule-Inv id = elim (update_first_cases (has_id id) clear_rule fw.rules) [
    | inl (h, e) ↦ rw e v
    | inr (i, y, ys, h, e) ↦ rw e (record {
      size = omega (arith, length-Hit h, v.size);
      active = ground (arith, h.passes, count-Hit is_on h, v.active);
      accounted = v.accounted;
    })
  ]

  set_active-Inv : (a : ℕ) → Inv (set_active fw a)
  unfolding set_active
  set_active-Inv a = record { size = v.size; active = v.active; accounted = v.accounted }

  verdict-Inv :
      (dir : RuleDirection) (rs : List FirewallRule) (ok : Bool)
      → length rs ≡ length fw.rules
      → count is_on rs ≡ count is_on fw.rules
      → Inv (record fw { rules = rs; stats = count_verdict (inspect fw).stats ok })
  verdict-Inv dir rs true el ec = record {
    size = omega (arith, v.size);
    active = omega (arith, v.active);
    accounted = omega (arith, v.accounted);
  }
  verdict-Inv dir rs false el ec = record {
    size = omega (arith, v.size);
    active = omega (arith, v.active);
    accounted = omega (arith, v.accounted);
  }

  filter_packet-Inv :
      (dir : RuleDirection) (proto si sp ip port : ℕ)
      → Inv (filter_packet fw dir proto si sp ip port).0
  unfolding filter_packet
  filter_packet-Inv dir proto si sp ip port = elim (Bool-cases (fw.stats.firewall_active == 0)) [
    | inl off ↦ rw off v
    | inr on ↦ elim (update_first_cases (rule_matches dir proto ip port) count_match fw.rules) [
      | inl (h, e) ↦ rw (on, e) (default (direction_code dir == 1))
      | inr (i, y, ys, h, e) ↦
          rw (on, e)
            (verdict-Inv dir ys (is_allow y.action) (length-Hit h)
              (ground (arith, count-Hit is_on h)))
    ]
  ]
    where
      default :
          (b : Bool)
          → Inv
              (if◌then◌else◌ {A = Firewall × FirewallAction} b
                (record (inspect fw) { stats = count_verdict (inspect fw).stats true }, allow)
                (record (inspect fw) { stats = count_verdict (inspect fw).stats false }, drop)).0
      default true = verdict-Inv dir fw.rules true refl refl
      default false = verdict-Inv dir fw.rules false refl refl

reset-Inv : (fw : Firewall) → length fw.rules ≡ 64 → Inv (reset fw)
reset-Inv fw h = record {
  size = omega (arith, length-map fw.rules clear_rule);
  active = none_on fw.rules;
  accounted = refl;
}
  where
    none_on : (rs : List FirewallRule) → 0 ≡ count is_on (map clear_rule rs)
    none_on [] = refl
    none_on (r ∷ rs) = omega (arith, none_on rs)

init-Inv : (fw : Firewall) → length fw.rules ≡ 64 → Inv (init fw)
unfolding init
init-Inv fw h =
    add_rule-Inv _
      (add_rule-Inv _
        (add_rule-Inv _
          (add_rule-Inv _
            (add_rule-Inv _
              (add_rule-Inv _ (add_rule-Inv _ (reset-Inv fw h) _ _ _ _ _ _) _ _ _ _ _ _) _ _ _ _ _
              _)
            _ _ _ _ _ _)
          _ _ _ _ _ _)
        _ _ _ _ _ _)
      _ _ _ _ _ _

-- The calls of the interface that change the state.
pub data Call : Type 0 where
  adds : List ℕ → RuleDirection → ℕ → ℕ → ℕ → FirewallAction → Call
  deletes : ℕ → Call
  sets_active : ℕ → Call
  filters : RuleDirection → ℕ → ℕ → ℕ → ℕ → ℕ → Call

unfoldable pub step : Firewall → Call → Firewall
step fw (adds n dir proto ip port act) = (add_rule fw n dir proto ip port act).0
step fw (deletes id) = delete_rule fw id
step fw (sets_active a) = set_active fw a
step fw (filters dir proto si sp ip port) = (filter_packet fw dir proto si sp ip port).0

unfoldable pub run : Firewall → List Call → Firewall
run fw [] = fw
run fw (c ∷ cs) = run (step fw c) cs

step-Inv : (fw : Firewall) (c : Call) → Inv fw → Inv (step fw c)
unfolding step
step-Inv fw (adds n dir proto ip port act) v = add_rule-Inv fw v n dir proto ip port act
step-Inv fw (deletes id) v = delete_rule-Inv fw v id
step-Inv fw (sets_active a) v = set_active-Inv fw v a
step-Inv fw (filters dir proto si sp ip port) v = filter_packet-Inv fw v dir proto si sp ip port

run-Inv : (fw : Firewall) (cs : List Call) → Inv fw → Inv (run fw cs)
unfolding run
run-Inv fw [] v = v
run-Inv fw (c ∷ cs) v = run-Inv (step fw c) cs (step-Inv fw c v)

-- After `firewall_init` on a table of 64 slots and any sequence of calls, the table has 64 slots,
-- `active_rules_count` is the number of enabled slots, and the packets inspected are those allowed
-- and those blocked together (modulo 2 ^ 64).
pub run-init-Inv : (fw : Firewall) (cs : List Call) → length fw.rules ≡ 64 → Inv (run (init fw) cs)
run-init-Inv fw cs h = run-Inv (init fw) cs (init-Inv fw h)
