-- ===== src/Firewall/Reach.antt =====
-- The ids of the rules of kernel/security/firewall.c after any sequence of calls.
use operating_system_sctrach.Common.{
  ℕ, ◌+◌, ◌^◌, ◌≤◌, ◌<◌, ◌≡◌, refl, inl, inr, List, [], ◌∷◌, map, arith, length, Option-cases,
  update_first,
}
use operating_system_sctrach.Firewall.{
  Firewall, FirewallRule, FirewallAction, RuleDirection, init, reset, add_rule, delete_rule,
  filter_packet, set_active, clear_rule, is_disabled, fill_rule, has_id,
}
use operating_system_sctrach.Firewall.Accounting.{
  Call, adds, deletes, sets_active, filters, step, run,
}
use operating_system_sctrach.Firewall.Rules.{
  IsIdentified, IdsBelow, Distinct, add_rule-IsIdentified, delete_rule-IsIdentified,
  filter_packet-IsIdentified,
}

-- No call takes more than one id.
add_rule-next :
    (fw : Firewall) (n : List ℕ) (dir : RuleDirection) (proto ip port : ℕ) (act : FirewallAction)
    → fw.next_rule_id + 1 < 2 ^ 32
    → (add_rule fw n dir proto ip port act).0.next_rule_id ≤ fw.next_rule_id + 1
unfolding add_rule
add_rule-next fw n dir proto ip port act h =
    elim (Option-cases
      (update_first is_disabled (fill_rule fw.next_rule_id n dir proto ip port act) fw.rules)) [
        | inl e ↦ rw e (omega arith)
        | inr (found, e) ↦ rw e (omega arith)
      ]

delete_rule-next : (fw : Firewall) (id : ℕ) → (delete_rule fw id).next_rule_id ≡ fw.next_rule_id
unfolding delete_rule
delete_rule-next fw id = elim (Option-cases (update_first (has_id id) clear_rule fw.rules)) [
  | inl e ↦ rw e
  | inr (found, e) ↦ rw e
]

filter_packet-next :
    (fw : Firewall) (dir : RuleDirection) (proto si sp ip port : ℕ)
    → (filter_packet fw dir proto si sp ip port).0.next_rule_id ≡ fw.next_rule_id
unfolding filter_packet
filter_packet-next fw dir proto si sp ip port = ground arith

step-IsIdentified :
    (fw : Firewall) (c : Call)
    → fw.next_rule_id + 1 < 2 ^ 32
    → IsIdentified fw
    → IsIdentified (step fw c)
unfolding step set_active
step-IsIdentified fw (adds n dir proto ip port act) h v =
    add_rule-IsIdentified fw v n dir proto ip port act h
step-IsIdentified fw (deletes id) h v = delete_rule-IsIdentified fw v id
step-IsIdentified fw (sets_active a) h v = record { below = v.below; distinct = v.distinct }
step-IsIdentified fw (filters dir proto si sp ip port) h v =
    filter_packet-IsIdentified fw v dir proto si sp ip port

step-next :
    (fw : Firewall) (c : Call)
    → fw.next_rule_id + 1 < 2 ^ 32
    → (step fw c).next_rule_id ≤ fw.next_rule_id + 1
unfolding step set_active
step-next fw (adds n dir proto ip port act) h = add_rule-next fw n dir proto ip port act h
step-next fw (deletes id) h = omega (arith, delete_rule-next fw id)
step-next fw (sets_active a) h = omega arith
step-next fw (filters dir proto si sp ip port) h =
    omega (arith, filter_packet-next fw dir proto si sp ip port)

run-IsIdentified :
    (fw : Firewall) (cs : List Call)
    → fw.next_rule_id + length cs < 2 ^ 32
    → IsIdentified fw
    → IsIdentified (run fw cs)
unfolding run
run-IsIdentified fw [] h v = v
run-IsIdentified fw (c ∷ cs) h v =
    run-IsIdentified (step fw c) cs (omega (arith, step-next fw c (omega arith)))
      (step-IsIdentified fw c (omega arith) v)

reset-IsIdentified : (fw : Firewall) → IsIdentified (reset fw)
reset-IsIdentified fw = record { below = off fw.rules; distinct = apart fw.rules }
  where
    off : (rs : List FirewallRule) → IdsBelow fw.next_rule_id (map clear_rule rs)
    off [] = tt
    off (r ∷ rs) = (inl refl, off rs)

    apart : (rs : List FirewallRule) → Distinct (map clear_rule rs)
    apart [] = tt
    apart (r ∷ rs) = (inl refl, apart rs)

-- One more rule, with the bound that the next one needs.
Ready : ℕ → Firewall → Type 0
Ready n fw = IsIdentified fw × (fw.next_rule_id ≤ n)

more :
    (fw : Firewall) (k : ℕ) (n : List ℕ) (dir : RuleDirection) (proto ip port : ℕ)
    (act : FirewallAction)
    → k + 1 < 2 ^ 32
    → Ready k fw
    → Ready (k + 1) (add_rule fw n dir proto ip port act).0
unfolding Ready
more fw k n dir proto ip port act h v = (
  add_rule-IsIdentified fw v.0 n dir proto ip port act (omega arith),
  omega (arith, add_rule-next fw n dir proto ip port act (omega arith)),
)

init-Ready :
    (fw : Firewall) (k : ℕ)
    → fw.next_rule_id ≤ k
    → k + 7 < 2 ^ 32
    → Ready (k + 1 + 1 + 1 + 1 + 1 + 1 + 1) (init fw)
unfolding init
init-Ready fw k le h = more _ _ _ _ _ _ _ _ (omega arith) (
    more _ _ _ _ _ _ _ _ (omega arith) (
      more _ _ _ _ _ _ _ _ (omega arith) (
        more _ _ _ _ _ _ _ _ (omega arith) (
          more _ _ _ _ _ _ _ _ (omega arith) (
            more _ _ _ _ _ _ _ _ (omega arith)
              (more (reset fw) k _ _ _ _ _ _ (omega arith) (start)))))))
  where
    start : Ready k (reset fw)
    start = unfold Ready in (reset-IsIdentified fw, le)

-- As long as fewer than 2 ^ 32 ids are handed out, after `firewall_init` and any sequence of calls
-- the enabled rules have pairwise distinct ids, all below the next id.
pub run-init-IsIdentified :
    (fw : Firewall) (cs : List Call)
    → fw.next_rule_id + 7 + length cs < 2 ^ 32
    → IsIdentified (run (init fw) cs)
unfolding Ready
run-init-IsIdentified fw cs h =
    let ready = init-Ready fw fw.next_rule_id (omega arith) (omega arith) in
    run-IsIdentified (init fw) cs (omega (arith, ready.1)) ready.0
