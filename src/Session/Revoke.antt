-- ===== src/Session/Revoke.antt =====
-- session_revoke of kernel/security/session.c.
use operating_system_sctrach.Common.{
  ℕ, ◌≡◌, refl, ap, ◌≢◌, inl, Option, some, set, bit_and, Found-eq, set-Found,
}
use operating_system_sctrach.Session.{
  Security, XenithraSession, SecureToken, SessionStatus, valid, validate, has_session, revoke,
}
use operating_system_sctrach.Session.Validate.{Names, Authorised-validate}
use operating_system_sctrach.Session.Lockout.{validate-refused}

abbrev pub zero_token : SecureToken
zero_token = record { high = 0; low = 0 }

module _ (sec : Security) (id i : ℕ) (s : XenithraSession) (h : Names sec id i s) where
  abbrev pub revoked : SessionStatus → Security
  revoked reason = record sec {
    sessions = set sec.sessions i (record s { status = reason; token = zero_token });
  }

  revoke_at : (reason : SessionStatus) → revoke sec id reason ≡ revoked reason
  unfolding revoke
  revoke_at reason = rw (Found-eq (has_session id) h, revoke)

  named :
      (reason : SessionStatus)
      → Names (revoked reason) id i (record s { status = reason; token = zero_token })
  named reason =
      set-Found (has_session id) (record s { status = reason; token = zero_token }) h h.passes

  -- After `session_revoke` for any reason but SESSION_VALID every call of `session_validate` for
  -- that session returns 0 and changes nothing.
  pub revoke-refuses :
      (reason : SessionStatus) (token : Option SecureToken) (pid need : ℕ)
      → reason ≢ valid
      → validate (revoke sec id reason) id token pid need ≡ (revoke sec id reason, 0)
  revoke-refuses reason token pid need dead = rw (revoke_at reason) (
      validate-refused (revoked reason) id i (record s { status = reason; token = zero_token })
        token pid need (named reason) dead)

  -- `session_revoke` with the reason SESSION_VALID opens the session to the all-zero token: whatever
  -- its status and token were, the owner's process is authorised by it for the session's
  -- capabilities.
  pub revoke-valid_opens :
      (need : ℕ)
      → bit_and s.capabilities need ≡ need
      → (validate (revoke sec id valid) id (some zero_token) s.owner_pid need).1 ≡ 1
  revoke-valid_opens need capable = rw (revoke_at valid) (
      ap (λ (r : Security × ℕ). r.1)
        (Authorised-validate (revoked valid) id (some zero_token) s.owner_pid need (record {
          index = i;
          session = record s { status = valid; token = zero_token };
          named = named valid;
          grants = record {
            is_live = refl;
            own_token = refl;
            own_pid = inl refl;
            capable = capable;
          };
        })))
