-- ===== src/Session/Lockout.antt =====
-- How kernel/security/session.c locks a session: by wrong tokens, by a foreign process, and by
-- session_revoke.
use operating_system_sctrach.Common.{
  ℕ, ◌+◌, ◌%◌, ◌^◌, ◌≡◌, refl, ◌∙◌, ◌≢◌, inl, inr, Option, some, arith, set, set-Found,
}
use operating_system_sctrach.Session.{
  Security, XenithraSession, SecureToken, valid, hijack_attempt_detected, validate, validate_at,
  has_session, strike,
}
use operating_system_sctrach.Session.Validate.{Names, token_cases, validate_named}

-- A session that is not valid refuses every caller, and the call changes nothing.
pub validate-refused :
    (sec : Security) (id i : ℕ) (s : XenithraSession) (token : Option SecureToken) (pid need : ℕ)
    → Names sec id i s
    → s.status ≢ valid
    → validate sec id token pid need ≡ (sec, 0)
unfolding validate_at
validate-refused sec id i s token pid need h dead =
    validate_named sec id i s token pid need h ∙ ground arith

-- The state after one wrong token at a valid session.
abbrev pub struck : Security → ℕ → XenithraSession → Security
struck sec i s = record sec {
  sessions = set sec.sessions i (strike s);
  total_blocked_hijacks = (sec.total_blocked_hijacks + 1) % 2 ^ 32;
}

validate-mismatch :
    (sec : Security) (id i : ℕ) (s : XenithraSession) (token : Option SecureToken) (pid need : ℕ)
    → Names sec id i s
    → s.status ≡ valid
    → token ≢ some s.token
    → validate sec id token pid need ≡ (struck sec i s, 0)
unfolding validate_at
validate-mismatch sec id i s token pid need h live wrong = elim (token_cases s.token token) [
  | inl (e, own) ↦ absurd (wrong own)
  | inr (e, other) ↦ validate_named sec id i s token pid need h ∙ rw e (ground arith)
]

struck-Names :
    (sec : Security) (id i : ℕ) (s : XenithraSession)
    → Names sec id i s
    → Names (struck sec i s) id i (strike s)
struck-Names sec id i s h = set-Found (has_session id) (strike s) h h.passes

-- Three calls with a wrong token, by any processes, lock a session that has no attempts against it:
-- all three return 0, the blocked counter goes up by three, and from then on every call for this
-- session returns 0 and changes nothing, also one with the right token.
pub validate-three_strikes :
    (sec : Security) (id i : ℕ) (s : XenithraSession) (t1 t2 t3 : Option SecureToken)
    (p1 p2 p3 c1 c2 c3 : ℕ) (token : Option SecureToken) (pid need : ℕ)
    → Names sec id i s
    → s.status ≡ valid
    → s.hijack_attempts ≡ 0
    → t1 ≢ some s.token
    → t2 ≢ some s.token
    → t3 ≢ some s.token
    → let (a, r1) = validate sec id t1 p1 c1 in
      let (b, r2) = validate a id t2 p2 c2 in
      let (c, r3) = validate b id t3 p3 c3 in
      (r1 ≡ 0)
      × (r2 ≡ 0)
      × (r3 ≡ 0)
      × (c.total_blocked_hijacks ≡ (sec.total_blocked_hijacks + 3) % 2 ^ 32)
      × (validate c id token pid need ≡ (c, 0))
validate-three_strikes sec id i s t1 t2 t3 p1 p2 p3 c1 c2 c3 token pid need h live zero w1 w2 w3 =
    let s1 = strike s in
    let s2 = strike s1 in
    let s3 = strike s2 in
    let sec1 = struck sec i s in
    let sec2 = struck sec1 i s1 in
    let n1 = struck-Names sec id i s h in
    let n2 = struck-Names sec1 id i s1 n1 in
    let n3 = struck-Names sec2 id i s2 n2 in
    let e1 = validate-mismatch sec id i s t1 p1 c1 h live w1 in
    let e2 = validate-mismatch sec1 id i s1 t2 p2 c2 n1 (still s zero live) w2 in
    let e3 = validate-mismatch sec2 id i s2 t3 p3 c3 n2 (still2 s zero live) w3 in
    let e4 = validate-refused (struck sec2 i s2) id i s3 token pid need n3 (dead s zero) in
    rw (e1, e2, e3) (refl, refl, refl, omega arith, e4)
  where
    still :
        (s : XenithraSession) → s.hijack_attempts ≡ 0 → s.status ≡ valid → (strike s).status ≡ valid
    still s z l = ground arith

    still2 :
        (s : XenithraSession)
        → s.hijack_attempts ≡ 0
        → s.status ≡ valid
        → (strike (strike s)).status ≡ valid
    still2 s z l = ground arith

    dead :
        (s : XenithraSession) → s.hijack_attempts ≡ 0 → (strike (strike (strike s))).status ≢ valid
    dead s z = ground arith

-- The right token from a process that is not the owner's (nor is the owner pid 0) locks the session
-- at once: the call returns 0 and the blocked counter goes up by one, and from then on every call
-- for this session returns 0 and changes nothing.
pub validate-foreign :
    (sec : Security) (id i : ℕ) (s : XenithraSession) (pid need : ℕ) (token : Option SecureToken)
    (pid' need' : ℕ)
    → Names sec id i s
    → s.status ≡ valid
    → s.owner_pid ≢ pid
    → s.owner_pid ≢ 0
    → let (a, r) = validate sec id (some s.token) pid need in
      (r ≡ 0)
      × (a.total_blocked_hijacks ≡ (sec.total_blocked_hijacks + 1) % 2 ^ 32)
      × (validate a id token pid' need' ≡ (a, 0))
unfolding validate_at
validate-foreign sec id i s pid need token pid' need' h live other owned =
    let s' = record s {
      hijack_attempts = (s.hijack_attempts + 1) % 2 ^ 32;
      status = hijack_attempt_detected;
    } in
    let sec' = record sec {
      sessions = set sec.sessions i s';
      total_blocked_hijacks = (sec.total_blocked_hijacks + 1) % 2 ^ 32;
    } in
    let e : validate sec id (some s.token) pid need ≡ (sec', 0) =
      validate_named sec id i s (some s.token) pid need h ∙ ground arith in
    rw e (
      refl,
      refl,
      validate-refused sec' id i s' token pid' need' (set-Found (has_session id) s' h h.passes)
          (λ d. cc),
    )
