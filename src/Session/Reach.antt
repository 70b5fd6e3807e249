-- ===== src/Session/Reach.antt =====
-- The table of kernel/security/session.c after any sequence of calls.
use operating_system_sctrach.Common.{
  ℕ, ◌+◌, ◌%◌, ◌^◌, ◌≤◌, ◌<◌, ◌≡◌, refl, ◌∙◌, inl, inr, Bool, List, [], ◌∷◌, Option, map, arith,
  length, length-set, length-map, set, All, All-set, All-map, All-Found, Found, find_first_cases,
}
use operating_system_sctrach.Session.{
  Security, XenithraSession, SecureToken, SessionStatus, Sample, expired, create, is_free, validate,
  has_session, strike, revoke, init,
}
use operating_system_sctrach.Session.Validate.{validate_at_cases}
use operating_system_sctrach.Session.Create.{IdsBelow}

pub record IsNumbered (n : ℕ) (sec : Security) : Type 0 where
  pub size : length sec.sessions ≡ 32
  pub below : IdsBelow sec
  pub next : sec.next_session_id ≤ n

-- An entry that takes over the id of the entry that it replaces.
keep-IsNumbered :
    (n : ℕ) (sec : Security) {p : XenithraSession → Bool} {i : ℕ} {s : XenithraSession}
    (s' : XenithraSession) (blocked ticks : ℕ)
    → IsNumbered n sec
    → Found p sec.sessions i s
    → s'.session_id ≡ s.session_id
    → IsNumbered n (record sec {
      sessions = set sec.sessions i s';
      total_blocked_hijacks = blocked;
      system_ticks = ticks;
    })
keep-IsNumbered n sec {i = i} s' blocked ticks v h e = record {
  size = length-set sec.sessions i s' ∙ v.size;
  below =
      All-set (λ (s : XenithraSession). s.session_id < sec.next_session_id) sec.sessions i s'
        (rw e (All-Found (λ (s : XenithraSession). s.session_id < sec.next_session_id) h v.below))
        v.below;
  next = v.next;
}

module _ (n : ℕ) (sec : Security) (v : IsNumbered n sec) where
  create-IsNumbered :
      (pid ring caps ip : ℕ) (a b : Sample)
      → n + 1 < 2 ^ 32
      → IsNumbered (n + 1) (create sec pid ring caps ip a b).0
  unfolding create
  create-IsNumbered pid ring caps ip a b room = elim (find_first_cases is_free sec.sessions) [
    | inl (h, e) ↦
        rw (e, create) (record { size = v.size; below = v.below; next = omega (arith, v.next) })
    | inr (i, old, h, e) ↦
        rw (e, create)
          (record {
            size = length-set sec.sessions i _ ∙ v.size;
            below =
                All-set (λ (s : XenithraSession). s.session_id < (sec.next_session_id + 1) % 2 ^ 32)
                  sec.sessions i _ (omega (arith, v.next))
                  (All-map (λ (s : XenithraSession). s.session_id < sec.next_session_id)
                    (λ (s : XenithraSession). s.session_id < (sec.next_session_id + 1) % 2 ^ 32)
                    sec.sessions (λ s lt. omega (arith, v.next)) v.below);
            next = omega (arith, v.next);
          })
  ]

  validate-IsNumbered :
      (id : ℕ) (token : Option SecureToken) (pid need : ℕ)
      → IsNumbered n (validate sec id token pid need).0
  unfolding validate
  validate-IsNumbered id token pid need = elim (find_first_cases (has_session id) sec.sessions) [
    | inl (h, e) ↦ rw (e, validate) v
    | inr (i, s, h, e) ↦
        rw (e, validate)
          (validate_at_cases (IsNumbered n) sec i s token pid need v
            (keep-IsNumbered n sec (strike s) _ sec.system_ticks v h refl)
            (keep-IsNumbered n sec _ _ sec.system_ticks v h refl)
            (keep-IsNumbered n sec _ sec.total_blocked_hijacks _ v h refl))
  ]

  revoke-IsNumbered : (id : ℕ) (reason : SessionStatus) → IsNumbered n (revoke sec id reason)
  unfolding revoke
  revoke-IsNumbered id reason = elim (find_first_cases (has_session id) sec.sessions) [
    | inl (h, e) ↦ rw (e, revoke) v
    | inr (i, s, h, e) ↦
        rw (e, revoke) (keep-IsNumbered n sec _ sec.total_blocked_hijacks sec.system_ticks v h refl)
  ]

-- The calls of the interface that change the table.
pub data Call : Type 0 where
  creates : ℕ → ℕ → ℕ → ℕ → Sample → Sample → Call
  validates : ℕ → Option SecureToken → ℕ → ℕ → Call
  revokes : ℕ → SessionStatus → Call

pub step : Security → Call → Security
step sec (creates pid ring caps ip a b) = (create sec pid ring caps ip a b).0
step sec (validates id token pid need) = (validate sec id token pid need).0
step sec (revokes id reason) = revoke sec id reason

pub run : Security → List Call → Security
run sec [] = sec
run sec (c ∷ cs) = run (step sec c) cs

weaken : (m n : ℕ) (sec : Security) → m ≤ n → IsNumbered m sec → IsNumbered n sec
weaken m n sec le v = record { size = v.size; below = v.below; next = omega (arith, v.next) }

step-IsNumbered :
    (n : ℕ) (sec : Security) (c : Call)
    → n + 1 < 2 ^ 32
    → IsNumbered n sec
    → IsNumbered (n + 1) (step sec c)
unfolding step
step-IsNumbered n sec (creates pid ring caps ip a b) room v =
    create-IsNumbered n sec v pid ring caps ip a b room
step-IsNumbered n sec (validates id token pid need) room v =
    weaken n (n + 1) _ (omega arith) (validate-IsNumbered n sec v id token pid need)
step-IsNumbered n sec (revokes id reason) room v =
    weaken n (n + 1) _ (omega arith) (revoke-IsNumbered n sec v id reason)

run-IsNumbered :
    (n : ℕ) (sec : Security) (cs : List Call)
    → n + length cs < 2 ^ 32
    → IsNumbered n sec
    → IsNumbered (n + length cs) (run sec cs)
unfolding run
run-IsNumbered n sec [] room v = weaken n (n + 0) sec (omega arith) v
run-IsNumbered n sec (c ∷ cs) room v =
    weaken (n + 1 + length cs) (n + length (c ∷ cs)) _ (omega arith) (
      run-IsNumbered (n + 1) (step sec c) cs (omega arith)
        (step-IsNumbered n sec c (omega arith) v))

-- After `security_init` on a table of 32 slots and any sequence of calls that hands out fewer than
-- 2 ^ 32 ids, the table has 32 slots, and every id in it was handed out before.
pub run-init-IsNumbered :
    (sec : Security) (a b c d : Sample) (cs : List Call)
    → length sec.sessions ≡ 32
    → 0 < sec.next_session_id
    → sec.next_session_id + 2 + length cs < 2 ^ 32
    → IsNumbered (sec.next_session_id + 2 + length cs) (run (init sec a b c d) cs)
unfolding init
run-init-IsNumbered sec a b c d cs size pos_next room =
    run-IsNumbered (sec.next_session_id + 2) _ cs room (
      weaken (sec.next_session_id + 1 + 1) (sec.next_session_id + 2) _ (omega arith) (
        create-IsNumbered (sec.next_session_id + 1) _
          (create-IsNumbered sec.next_session_id _ cleared _ _ _ _ a b (omega arith)) _ _ _ _ c d
          (omega arith)))
  where
    zero_below :
        (xs : List XenithraSession)
        → All
            (λ (s : XenithraSession). s.session_id < sec.next_session_id)
            (map (λ (s : XenithraSession). record s { status = expired; session_id = 0 }) xs)
    zero_below [] = tt
    zero_below (x ∷ xs) = (pos_next, zero_below xs)

    cleared : IsNumbered sec.next_session_id (record sec {
      sessions =
          map (λ (s : XenithraSession). record s { status = expired; session_id = 0 }) sec.sessions;
      total_blocked_hijacks = 0;
    })
    cleared = record {
      size = length-map sec.sessions _ ∙ size;
      below = zero_below sec.sessions;
      next = omega arith;
    }
