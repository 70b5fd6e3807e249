-- ===== src/Firewall/Rules.antt =====
-- The identity of rules in kernel/security/firewall.c: adding takes a free slot and a fresh id, and
-- deleting an id leaves no enabled rule with it.
use operating_system_sctrach.Common.{
  ℕ, ◌+◌, ◌%◌, ◌^◌, ◌≤◌, ◌<◌, ◌≡◌, refl, ◌≢◌, ◌⊎◌, inl, inr, Bool, true, false, List, [], ◌∷◌, ◌++◌,
  arith, ◌==◌, if◌then◌else◌, All, All-append, update_first_cases, Hit, All-left, All-right,
  All-Hit, Bool-cases,
}
use operating_system_sctrach.Firewall.{
  Firewall, FirewallRule, FirewallAction, RuleDirection, allow, drop, add_rule, delete_rule,
  filter_packet, rule_matches, count_match, count_verdict, inspect, is_allow, direction_code,
  is_disabled, clear_rule, fill_rule, has_id,
}

abbrev pub HasId : ℕ → FirewallRule → Type 0
HasId id r = (r.enabled ≢ 0) × (r.rule_id ≡ id)

-- Enabled rules have ids below `next`, and no two of them share one.
abbrev pub IdsBelow : ℕ → List FirewallRule → Type 0
IdsBelow next = All (λ r. (r.enabled ≡ 0) ⊎ (r.rule_id < next))

abbrev pub NoId : ℕ → List FirewallRule → Type 0
NoId id = All (λ r. has_id id r ≡ false)

abbrev pub Distinct : List FirewallRule → Type 0
Distinct [] = Unit {0}
Distinct (r ∷ rs) = ((r.enabled ≡ 0) ⊎ NoId r.rule_id rs) × Distinct rs

IdsBelow-NoId : (n : ℕ) (rs : List FirewallRule) → IdsBelow n rs → NoId n rs
IdsBelow-NoId n [] h = tt
IdsBelow-NoId n (r ∷ rs) h = (ground (arith, h.0), IdsBelow-NoId n rs h.1)

IdsBelow-mono : (m n : ℕ) (rs : List FirewallRule) → m ≤ n → IdsBelow m rs → IdsBelow n rs
IdsBelow-mono m n [] le h = tt
IdsBelow-mono m n (r ∷ rs) le h = (ground (arith, h.0), IdsBelow-mono m n rs le h.1)

-- What `Distinct` says across a split, and how one entry is replaced.
module _ (a : FirewallRule) (rest : List FirewallRule) where
  NoId-mid :
      (id : ℕ) (before : List FirewallRule) → NoId id (before ++ (a ∷ rest)) → has_id id a ≡ false
  NoId-mid id [] h = h.0
  NoId-mid id (r ∷ rs) h = NoId-mid id rs h.1

  Distinct-rest :
      (before : List FirewallRule)
      → Distinct (before ++ (a ∷ rest))
      → (a.enabled ≡ 0) ⊎ NoId a.rule_id rest
  Distinct-rest [] d = d.0
  Distinct-rest (r ∷ rs) d = Distinct-rest rs d.1

  Distinct-before :
      (before : List FirewallRule)
      → Distinct (before ++ (a ∷ rest))
      → All (λ r. (r.enabled ≡ 0) ⊎ (has_id r.rule_id a ≡ false)) before
  Distinct-before [] d = tt
  Distinct-before (r ∷ rs) d =
      (elim d.0 [ inl e ↦ inl e | inr h ↦ inr (NoId-mid r.rule_id rs h) ], Distinct-before rs d.1)

  NoId-replace :
      (id : ℕ) (b : FirewallRule) (before : List FirewallRule)
      → has_id id b ≡ false
      → NoId id (before ++ (a ∷ rest))
      → NoId id (before ++ (b ∷ rest))
  NoId-replace id b [] e h = (e, h.1)
  NoId-replace id b (r ∷ rs) e h = (h.0, NoId-replace id b rs e h.1)

  Distinct-replace :
      (b : FirewallRule) (before : List FirewallRule)
      → (b.enabled ≡ 0) ⊎ NoId b.rule_id rest
      → All (λ r. (r.enabled ≡ 0) ⊎ (has_id r.rule_id b ≡ false)) before
      → Distinct (before ++ (a ∷ rest))
      → Distinct (before ++ (b ∷ rest))
  Distinct-replace b [] h k d = (h, d.1)
  Distinct-replace b (r ∷ rs) h k d = (head d.0 k.0, Distinct-replace b rs h k.1 d.1)
    where
      head :
          (r.enabled ≡ 0) ⊎ NoId r.rule_id (rs ++ (a ∷ rest))
          → (r.enabled ≡ 0) ⊎ (has_id r.rule_id b ≡ false)
          → (r.enabled ≡ 0) ⊎ NoId r.rule_id (rs ++ (b ∷ rest))
      head (inl e) k = inl e
      head (inr n) (inl e) = inl e
      head (inr n) (inr e) = inr (NoId-replace r.rule_id b rs e n)

-- The ids of the table: enabled rules have distinct ids, all below the next one.
pub record IsIdentified (fw : Firewall) : Type 0 where
  pub below : IdsBelow fw.next_rule_id fw.rules
  pub distinct : Distinct fw.rules

module _ (fw : Firewall) (v : IsIdentified fw) where
  -- In a table with distinct ids, after `firewall_delete_rule(id)` no enabled rule has that id,
  -- whether or not one had it before.
  pub delete_rule-NoId : (id : ℕ) → NoId id (delete_rule fw id).rules
  unfolding delete_rule
  delete_rule-NoId id = elim (update_first_cases (has_id id) clear_rule fw.rules) [
    | inl (h, e) ↦ rw e h
    | inr (i, y, ys, h, e) ↦ rw e (
        rw h.now (
          All-append (λ r. has_id id r ≡ false) h.before (clear_rule h.at ∷ h.after) h.missed
            (
              refl,
              rest h.at h.after h.passes
                  (Distinct-rest h.at h.after h.before (rw h.was at v.distinct)),
            )))
  ]
    where
      rest :
          (a : FirewallRule) (l : List FirewallRule)
          → has_id id a ≡ true
          → (a.enabled ≡ 0) ⊎ NoId a.rule_id l
          → NoId id l
      rest a l p (inl e) = absurd (ground arith)
      rest a l p (inr n) = rw (← same a p) n
        where
          same : (a : FirewallRule) → has_id id a ≡ true → a.rule_id ≡ id
          same a p = ground arith

  -- An update of one entry keeps the ids apart if the new entry's id is below the bound and met
  -- nowhere else.
  Hit-IsIdentified :
      {p : FirewallRule → Bool} {f : FirewallRule → FirewallRule} {ys : List FirewallRule} {i : ℕ}
      {y : FirewallRule} (next : ℕ) (h : Hit p f fw.rules i y ys)
      → fw.next_rule_id ≤ next
      → ((f h.at).enabled ≡ 0) ⊎ ((f h.at).rule_id < next)
      → ((f h.at).enabled ≡ 0) ⊎ NoId (f h.at).rule_id h.after
      → All (λ r. (r.enabled ≡ 0) ⊎ (has_id r.rule_id (f h.at) ≡ false)) h.before
      → IdsBelow next ys × Distinct ys
  Hit-IsIdentified {f = f} next h le lt rest before = (
    All-Hit (λ r. (r.enabled ≡ 0) ⊎ (r.rule_id < next)) h lt
        (IdsBelow-mono fw.next_rule_id next fw.rules le v.below),
    rw h.now (Distinct-replace h.at h.after (f h.at) h.before rest before (rw h.was at v.distinct)),
  )

  any_before :
      (b : FirewallRule) (rs : List FirewallRule)
      → b.enabled ≡ 0
      → All (λ r. (r.enabled ≡ 0) ⊎ (has_id r.rule_id b ≡ false)) rs
  any_before b [] e = tt
  any_before b (r ∷ rs) e = (inr (ground arith), any_before b rs e)

  fresh_before :
      (b : FirewallRule) (rs : List FirewallRule)
      → b.rule_id ≡ fw.next_rule_id
      → IdsBelow fw.next_rule_id rs
      → All (λ r. (r.enabled ≡ 0) ⊎ (has_id r.rule_id b ≡ false)) rs
  fresh_before b [] e h = tt
  fresh_before b (r ∷ rs) e h = (ground (arith, h.0), fresh_before b rs e h.1)

  pub delete_rule-IsIdentified : (id : ℕ) → IsIdentified (delete_rule fw id)
  unfolding delete_rule
  delete_rule-IsIdentified id = elim (update_first_cases (has_id id) clear_rule fw.rules) [
    | inl (h, e) ↦ rw e v
    | inr (i, y, ys, h, e) ↦
        let both =
          Hit-IsIdentified fw.next_rule_id h (omega arith) (inl refl) (inl refl)
            (any_before (clear_rule h.at) h.before refl) in
        rw e (record { below = both.0; distinct = both.1 })
  ]

  pub filter_packet-IsIdentified :
      (dir : RuleDirection) (proto si sp ip port : ℕ)
      → IsIdentified (filter_packet fw dir proto si sp ip port).0
  unfolding filter_packet
  filter_packet-IsIdentified dir proto si sp ip port =
      elim (Bool-cases (fw.stats.firewall_active == 0)) [
        | inl off ↦ rw off v
        | inr on ↦ elim (update_first_cases (rule_matches dir proto ip port) count_match fw.rules) [
          | inl (h, e) ↦ rw (on, e) (default (direction_code dir == 1))
          | inr (i, y, ys, h, e) ↦ rw (on, e) (after_hit h)
        ]
      ]
    where
      default :
          (b : Bool)
          → IsIdentified
              (if◌then◌else◌ {A = Firewall × FirewallAction} b
                (record (inspect fw) { stats = count_verdict (inspect fw).stats true }, allow)
                (record (inspect fw) { stats = count_verdict (inspect fw).stats false }, drop)).0
      default true = record { below = v.below; distinct = v.distinct }
      default false = record { below = v.below; distinct = v.distinct }

      after_hit :
          {i : ℕ} {y : FirewallRule} {ys : List FirewallRule}
          → (h : Hit (rule_matches dir proto ip port) count_match fw.rules i y ys)
          → IsIdentified (record (inspect fw) {
            rules = ys;
            stats = count_verdict (inspect fw).stats (is_allow y.action);
          })
      after_hit h =
          let whole = rw h.was at v.distinct in
          let ids = rw h.was at v.below in
          let here =
            (All-right (λ r. (r.enabled ≡ 0) ⊎ (r.rule_id < fw.next_rule_id)) h.before
              (h.at ∷ h.after) ids).0 in
          let both =
            Hit-IsIdentified fw.next_rule_id h (omega arith) here
              (Distinct-rest h.at h.after h.before whole)
              (Distinct-before h.at h.after h.before whole) in
          record { below = both.0; distinct = both.1 }

  pub add_rule-IsIdentified :
      (n : List ℕ) (dir : RuleDirection) (proto ip port : ℕ) (act : FirewallAction)
      → fw.next_rule_id + 1 < 2 ^ 32
      → IsIdentified (add_rule fw n dir proto ip port act).0
  unfolding add_rule
  add_rule-IsIdentified n dir proto ip port act room =
      elim (update_first_cases is_disabled (fill_rule fw.next_rule_id n dir proto ip port act)
        fw.rules) [
          | inl (h, e) ↦ rw e v
          | inr (i, y, ys, h, e) ↦
              let ids = rw h.was at v.below in
              let Old : FirewallRule → Type 0 =
                λ r. (r.enabled ≡ 0) ⊎ (r.rule_id < fw.next_rule_id) in
              let both =
                Hit-IsIdentified ((fw.next_rule_id + 1) % 2 ^ 32) h (omega arith)
                  (inr (omega arith))
                  (inr (
                    IdsBelow-NoId fw.next_rule_id h.after
                      (All-right Old h.before (h.at ∷ h.after) ids).1))
                  (fresh_before (fill_rule fw.next_rule_id n dir proto ip port act h.at) h.before
                    refl (All-left Old h.before (h.at ∷ h.after) ids)) in
              rw e (record { below = both.0; distinct = both.1 })
        ]
