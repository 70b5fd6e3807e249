-- ===== src/Session/Validate.antt =====
-- Whom session_validate of kernel/security/session.c authorises.
use operating_system_sctrach.Common.{
  ℕ, ◌+◌, ◌%◌, ◌^◌, ◌≡◌, refl, ◌∙◌, ◌≢◌, ◌⊎◌, inl, inr, true, false, not, ◌&&◌, Option, none, some,
  arith, ◌==◌, set, bit_and, Found, find_first, find_first_cases, Found-eq, Bool-cases,
}
use operating_system_sctrach.Session.{
  Security, XenithraSession, SecureToken, valid, hijack_attempt_detected, validate, validate_at,
  has_session, token_differs, strike, is_valid,
}

-- The session that a call names is the first with its id.
abbrev pub Names : Security → ℕ → ℕ → XenithraSession → Type 0
Names sec id i s = Found (has_session id) sec.sessions i s

-- What a session demands of a caller: it is valid, the token is its own, the caller is its owner
-- (or the owner is pid 0), and it has every capability asked for.
pub record Grants (s : XenithraSession) (token : Option SecureToken) (pid need : ℕ) : Type 0 where
  pub is_live : s.status ≡ valid
  pub own_token : token ≡ some s.token
  pub own_pid : (s.owner_pid ≡ pid) ⊎ (s.owner_pid ≡ 0)
  pub capable : bit_and s.capabilities need ≡ need

pub token_cases :
    (own : SecureToken) (t : Option SecureToken)
    → ((token_differs own t ≡ false) × (t ≡ some own))
      ⊎ ((token_differs own t ≡ true) × (t ≢ some own))
token_cases own none = inr (refl, λ e. cc)
token_cases own (some t) = elim (Bool-cases (own.high == t.high)) [
  | inl h ↦ elim (Bool-cases (own.low == t.low)) [
    | inl l ↦ inl (ground arith, ground arith)
    | inr l ↦ inr (ground arith, ground arith)
  ]
  | inr h ↦ inr (ground arith, ground arith)
]

pub validate_named :
    (sec : Security) (id i : ℕ) (s : XenithraSession) (token : Option SecureToken) (pid need : ℕ)
    → Names sec id i s
    → validate sec id token pid need ≡ validate_at sec i s token pid need
unfolding validate
validate_named sec id i s token pid need h = rw (Found-eq (has_session id) h, validate)

validate_at-Grants :
    (sec : Security) (i : ℕ) (s : XenithraSession) (token : Option SecureToken) (pid need : ℕ)
    → (validate_at sec i s token pid need).1 ≡ 1
    → Grants s token pid need
unfolding validate_at
validate_at-Grants sec i s token pid need h = elim (token_cases s.token token) [
  | inl (e, own) ↦ record {
    is_live = ground arith;
    own_token = own;
    own_pid = ground arith;
    capable = ground arith;
  }
  | inr (e, other) ↦ absurd (ground arith)
]

-- The caller's request is one that the named session grants.
pub record Authorised (sec : Security) (id : ℕ) (token : Option SecureToken) (pid need : ℕ)
    : Type 0 where
  pub index : ℕ
  pub session : XenithraSession
  pub named : Names sec id index session
  pub grants : Grants session token pid need

-- `session_validate` returns 1 only to a caller that presents the secret token of the first session
-- with that id, while this session is valid, from its owner's process (unless the owner is pid 0),
-- and asks for no capability outside the session's.
pub validate-Authorised :
    (sec : Security) (id : ℕ) (token : Option SecureToken) (pid need : ℕ)
    → (validate sec id token pid need).1 ≡ 1
    → Authorised sec id token pid need
validate-Authorised sec id token pid need h =
    elim (find_first_cases (has_session id) sec.sessions) [
      | inl (missed, e) ↦ absurd (nobody e)
      | inr (i, s, found, e) ↦ record {
        index = i;
        session = s;
        named = found;
        grants =
            validate_at-Grants sec i s token pid need
              (rw (validate_named sec id i s token pid need found) at h);
      }
    ]
  where
    nobody : find_first (has_session id) sec.sessions ≡ none → ⊥
    nobody e = unfold validate in (omega (arith, (rw (e, validate) at h)))

-- Every such caller is authorised: the call returns 1, stamps the session with a new tick and
-- changes nothing else.
pub Authorised-validate :
    (sec : Security) (id : ℕ) (token : Option SecureToken) (pid need : ℕ)
    → (a : Authorised sec id token pid need)
    → let tick = (sec.system_ticks + 1) % 2 ^ 64 in
      validate sec id token pid need ≡ (
        record sec {
          sessions = set sec.sessions a.index (record (a.session) { last_activity_tick = tick });
          system_ticks = tick;
        },
        1,
      )
unfolding validate_at
Authorised-validate sec id token pid need a =
    validate_named sec id a.index a.session token pid need a.named ∙ at a.session a.grants
  where
    at :
        (s : XenithraSession)
        → Grants s token pid need
        → validate_at sec a.index s token pid need ≡ (
          record sec {
            sessions =
                set sec.sessions a.index
                  (record s { last_activity_tick = (sec.system_ticks + 1) % 2 ^ 64 });
            system_ticks = (sec.system_ticks + 1) % 2 ^ 64;
          },
          1,
        )
    at s g = elim (token_cases s.token token) [
      | inl (e, own) ↦ rw e (ground arith)
      | inr (e, other) ↦ absurd (other g.own_token)
    ]

-- The four states that the body of the loop can leave.
pub validate_at_cases {ℓ} :
    (P : Security → Type ℓ) (sec : Security) (i : ℕ) (s : XenithraSession)
    (token : Option SecureToken) (pid need : ℕ)
    → P sec
    → P (record sec {
      sessions = set sec.sessions i (strike s);
      total_blocked_hijacks = (sec.total_blocked_hijacks + 1) % 2 ^ 32;
    })
    → P (record sec {
      sessions = set sec.sessions i (record s {
        hijack_attempts = (s.hijack_attempts + 1) % 2 ^ 32;
        status = hijack_attempt_detected;
      });
      total_blocked_hijacks = (sec.total_blocked_hijacks + 1) % 2 ^ 32;
    })
    → P (record sec {
      sessions =
          set sec.sessions i (record s { last_activity_tick = (sec.system_ticks + 1) % 2 ^ 64 });
      system_ticks = (sec.system_ticks + 1) % 2 ^ 64;
    })
    → P (validate_at sec i s token pid need).0
unfolding validate_at
validate_at_cases P sec i s token pid need same struck foreign stamped =
    elim (Bool-cases (is_valid s.status)) [
      | inr e ↦ rw e same
      | inl e ↦ elim (Bool-cases (token_differs s.token token)) [
        | inl t ↦ rw (e, t) struck
        | inr t ↦ elim (Bool-cases (not (s.owner_pid == pid) && not (s.owner_pid == 0))) [
          | inl o ↦ rw (e, t, o) foreign
          | inr o ↦ elim (Bool-cases (bit_and s.capabilities need == need)) [
            | inr c ↦ rw (e, t, o, c) same
            | inl c ↦ rw (e, t, o, c) stamped
          ]
        ]
      ]
    ]
