-- ===== src/Session/Tests.antt =====
-- Runs of the model of kernel/security/session.c, and its theorems at concrete tables.
use operating_system_sctrach.Common.{
  ◌≡◌, refl, inl, [], ◌∷◌, arith, none, some, replicate, find_first,
}
use operating_system_sctrach.Session.{
  Security, XenithraSession, SecureToken, Sample, valid, expired, create, generate_token, validate,
  validate_at, revoke, init, get_active_session_count,
}
use operating_system_sctrach.Session.Validate.{
  Names, Authorised, validate-Authorised, Authorised-validate,
}
use operating_system_sctrach.Session.Lockout.{validate-three_strikes}
use operating_system_sctrach.Session.Create.{create-validate, created}
use operating_system_sctrach.Session.Revoke.{revoke-valid_opens, zero_token}

abbrev secret : SecureToken
secret = record { high = 17; low = 23 }

abbrev unused : XenithraSession
unused = record {
  session_id = 0;
  owner_pid = 0;
  ring_level = 0;
  capabilities = 0;
  token = record { high = 0; low = 0 };
  creation_tick = 0;
  last_activity_tick = 0;
  client_ip = 0;
  status = expired;
  hijack_attempts = 0;
}

abbrev desktop : XenithraSession
desktop = record unused {
  session_id = 1001;
  owner_pid = 5;
  ring_level = 3;
  capabilities = 18;
  token = secret;
  status = valid;
}

abbrev table : Security
table = record {
  sessions = unused ∷ desktop ∷ unused ∷ [];
  next_session_id = 1002;
  total_blocked_hijacks = 0;
  system_ticks = 100;
}

abbrev noise : Sample
noise = record { rand_val = 99; rand_ok = 1; tsc_low = 0; tsc_high = 0 }

abbrev zeroed : Security
zeroed = record {
  sessions = replicate 32 unused;
  next_session_id = 1000;
  total_blocked_hijacks = 0;
  system_ticks = 100;
}

boot_sessions : get_active_session_count (init zeroed noise noise noise noise) ≡ 2
unfolding get_active_session_count init create find_first
boot_sessions = refl

desktop-Names : Names table 1001 1 desktop
desktop-Names = record {
  before = unused ∷ [];
  after = unused ∷ [];
  missed = (refl, tt);
  passes = refl;
  index = refl;
  was = refl;
}

desktop-Authorised : Authorised table 1001 (some secret) 5 16
desktop-Authorised = record {
  index = 1;
  session = desktop;
  named = desktop-Names;
  grants = record { is_live = refl; own_token = refl; own_pid = inl refl; capable = refl };
}

validate-Authorised_example : Authorised table 1001 (some secret) 5 16
unfolding validate validate_at find_first
validate-Authorised_example = validate-Authorised table 1001 (some secret) 5 16 refl

Authorised-validate_example : validate table 1001 (some secret) 5 16 ≡ (
  record table {
    sessions = unused ∷ record desktop { last_activity_tick = 101 } ∷ unused ∷ [];
    system_ticks = 101;
  },
  1,
)
unfolding desktop-Authorised
Authorised-validate_example = Authorised-validate table 1001 (some secret) 5 16 desktop-Authorised

validate-three_strikes_example :
    let (a, r1) = validate table 1001 none 5 0 in
    let (b, r2) = validate a 1001 (some zero_token) 6 0 in
    let (c, r3) = validate b 1001 none 7 16 in
    (r1 ≡ 0)
    × (r2 ≡ 0)
    × (r3 ≡ 0)
    × (c.total_blocked_hijacks ≡ 3)
    × (validate c 1001 (some secret) 5 16 ≡ (c, 0))
validate-three_strikes_example =
    validate-three_strikes table 1001 1 desktop none (some zero_token) none 5 6 7 0 0 16
      (some secret) 5 16 desktop-Names refl refl (λ e. cc) (λ e. ground arith) (λ e. cc)

create-validate_example :
    let (sec', slot) = create table 9 3 16 0x7F000001 noise noise in
    (slot ≡ some 0)
    × (sec'.sessions ≡ (created table 9 3 16 0x7F000001 noise noise 0).sessions)
    × ((validate sec' 1002 (some (generate_token noise noise)) 9 16).1 ≡ 1)
create-validate_example =
    create-validate table 9 3 16 0x7F000001 noise noise 0 unused 16 (omega arith)
      (record {
        before = [];
        after = desktop ∷ unused ∷ [];
        missed = tt;
        passes = refl;
        index = refl;
        was = refl;
      })
      refl

revoke-valid_opens_example : (validate (revoke table 1001 valid) 1001 (some zero_token) 5 16).1 ≡ 1
revoke-valid_opens_example = revoke-valid_opens table 1001 1 desktop desktop-Names 16 refl
