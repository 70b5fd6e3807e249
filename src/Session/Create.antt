-- ===== src/Session/Create.antt =====
-- session_create of kernel/security/session.c: which slot a new session takes, and that its token
-- opens it.
use operating_system_sctrach.Common.{
  ℕ, ◌+◌, ◌%◌, ◌^◌, ◌<◌, ◌≡◌, refl, ap, inl, false, List, [], ◌∷◌, none, some, arith, ==_ne,
  ==_refl, set, set-append, bit_and, All, All-left, Found, find_first_miss, Found-eq,
}
use operating_system_sctrach.Session.{
  Security, XenithraSession, Sample, create, fresh_session, is_free, generate_token, validate,
  has_session,
}
use operating_system_sctrach.Session.Validate.{Names, Authorised-validate}

-- Every id in the table was handed out before.
abbrev pub IdsBelow : Security → Type 0
IdsBelow sec = All (λ (s : XenithraSession). s.session_id < sec.next_session_id) sec.sessions

module _ (sec : Security) (pid ring caps ip : ℕ) (a b : Sample) where
  -- The state with the new session in slot `i`.
  abbrev pub created : ℕ → Security
  created i = record sec {
    sessions = set sec.sessions i (fresh_session sec pid ring caps ip (generate_token a b));
    next_session_id = (sec.next_session_id + 1) % 2 ^ 32;
    system_ticks = (sec.system_ticks + 1) % 2 ^ 64;
  }

  create_at :
      (i : ℕ) (old : XenithraSession)
      → Found is_free sec.sessions i old
      → create sec pid ring caps ip a b ≡ (created i, some i)
  unfolding create
  create_at i old h = rw (Found-eq is_free h, create)

  not_yet :
      (xs : List XenithraSession)
      → All (λ (s : XenithraSession). s.session_id < sec.next_session_id) xs
      → All (λ s. has_session sec.next_session_id s ≡ false) xs
  not_yet [] h = tt
  not_yet (x ∷ xs) h = (==_ne x.session_id sec.next_session_id (omega (arith, h.0)), not_yet xs h.1)

  -- While the ids in the table are below the next one, `session_create` puts the session into the
  -- first slot that is expired or unused, and returns that slot; all other slots stay. A call of
  -- `session_validate` with the new id, the new token, the same process and capabilities among those
  -- given is then authorised.
  pub create-validate :
      (i : ℕ) (old : XenithraSession) (need : ℕ)
      → IdsBelow sec
      → Found is_free sec.sessions i old
      → bit_and caps need ≡ need
      → let (sec', slot) = create sec pid ring caps ip a b in
        (slot ≡ some i)
        × (sec'.sessions ≡ (created i).sessions)
        × ((validate sec' sec.next_session_id (some (generate_token a b)) pid need).1 ≡ 1)
  create-validate i old need below h capable = rw (create_at i old h) (
    refl,
    refl,
    ap (λ (r : Security × ℕ). r.1)
        (Authorised-validate (created i) sec.next_session_id (some (generate_token a b)) pid need
          (record {
            index = i;
            session = fresh_session sec pid ring caps ip (generate_token a b);
            named = named;
            grants = record {
              is_live = refl;
              own_token = refl;
              own_pid = inl refl;
              capable = capable;
            };
          })),
  )
    where
      named :
          Names
            (created i)
            sec.next_session_id
            i
            (fresh_session sec pid ring caps ip (generate_token a b))
      named = record {
        before = h.before;
        after = h.after;
        missed = not_yet h.before (
            All-left (λ (s : XenithraSession). s.session_id < sec.next_session_id) h.before
              (old ∷ h.after) (rw h.was at below));
        passes = ==_refl sec.next_session_id;
        index = h.index;
        was = rw (h.was, h.index) (set-append h.before old _ h.after);
      }

  -- With no slot expired or unused, `session_create` returns NULL and changes nothing.
  create-full :
      All (λ s. is_free s ≡ false) sec.sessions → create sec pid ring caps ip a b ≡ (sec, none)
  unfolding create
  create-full h = rw (find_first_miss is_free sec.sessions h, create)
