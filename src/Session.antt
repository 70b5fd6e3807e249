-- ===== src/Session.antt =====
-- kernel/security/session.h and session.c: the session table, its tokens and the guard against
-- hijacking. The statics are the fields of `Security`. A pointer into the table is an index; what
-- the processor answers (RDRAND, RDTSC, CPUID, CR4) is an argument.
pub mod Validate
pub mod Lockout
pub mod Create
pub mod Smep
pub mod Reach
pub mod Revoke
mod Tests
use operating_system_sctrach.Common.{
  ℕ, suc, ◌+◌, ◌*◌, ◌/◌, ◌%◌, ◌^◌, Bool, true, false, not, ◌&&◌, ◌||◌, List, [], ◌∷◌, map, Option,
  none, some, ltb, leb, ◌==◌, if◌then◌else◌, set, get_elem?, bit_and, bit_or, bit_xor, find_first,
  count,
}
use operating_system_sctrach.Common.Int.{ℤ, pos, negsuc}

abbrev pub max_sessions : ℕ
max_sessions = 32

abbrev pub cap_system_admin : ℕ
cap_system_admin = 1

abbrev pub cap_network_socket : ℕ
cap_network_socket = 2

abbrev pub cap_firewall_control : ℕ
cap_firewall_control = 4

abbrev pub cap_storage_write : ℕ
cap_storage_write = 8

abbrev pub cap_user_desktop : ℕ
cap_user_desktop = 16

pub data SessionStatus : Type 0 where
  valid expired hijack_attempt_detected revoked_anomaly locked : SessionStatus

abbrev pub is_valid : SessionStatus → Bool
is_valid valid = true
is_valid _ = false

abbrev pub is_expired : SessionStatus → Bool
is_expired expired = true
is_expired _ = false

abbrev pub is_hijacked : SessionStatus → Bool
is_hijacked hijack_attempt_detected = true
is_hijacked _ = false

pub record SecureToken : Type 0 where
  pub high : ℕ
  pub low : ℕ

pub record XenithraSession : Type 0 where
  pub session_id : ℕ
  pub owner_pid : ℕ
  pub ring_level : ℕ
  pub capabilities : ℕ
  pub token : SecureToken
  pub creation_tick : ℕ
  pub last_activity_tick : ℕ
  pub client_ip : ℕ
  pub status : SessionStatus
  pub hijack_attempts : ℕ

pub record Security : Type 0 where
  pub sessions : List XenithraSession
  pub next_session_id : ℕ
  pub total_blocked_hijacks : ℕ
  pub system_ticks : ℕ

-- What the processor answers to one call of `get_hardware_entropy`: the value and carry flag of
-- RDRAND, and the two halves of RDTSC.
pub record Sample : Type 0 where
  pub rand_val : ℕ
  pub rand_ok : ℕ
  pub tsc_low : ℕ
  pub tsc_high : ℕ

abbrev inc32 : ℕ → ℕ
inc32 n = (n + 1) % 2 ^ 32

abbrev inc64 : ℕ → ℕ
inc64 n = (n + 1) % 2 ^ 64

pub xorshift : ℕ → ℕ
xorshift tsc =
    let a = bit_xor tsc (tsc / 2 ^ 12) in
    let b = bit_xor a (a * 2 ^ 25 % 2 ^ 64) in
    let c = bit_xor b (b / 2 ^ 27) in c * 0x2545F4914F6CDD1D % 2 ^ 64

pub get_hardware_entropy : Sample → ℕ
unfolding xorshift
get_hardware_entropy s =
    if s.rand_ok == 0
    then xorshift (bit_or (s.tsc_high * 2 ^ 32 % 2 ^ 64) s.tsc_low)
    else s.rand_val

pub generate_token : Sample → Sample → SecureToken
unfolding get_hardware_entropy
generate_token s t = record {
  high = bit_xor (get_hardware_entropy s) 0xA5A5A5A5A5A5A5A5;
  low = bit_xor (get_hardware_entropy t) 0x5A5A5A5A5A5A5A5A;
}

-- `status == SESSION_EXPIRED || session_id == 0`
abbrev pub is_free : XenithraSession → Bool
is_free s = is_expired s.status || s.session_id == 0

-- What `session_create` writes into the slot.
abbrev pub fresh_session : Security → ℕ → ℕ → ℕ → ℕ → SecureToken → XenithraSession
fresh_session sec pid ring caps ip tok = record {
  session_id = sec.next_session_id;
  owner_pid = pid;
  ring_level = ring;
  capabilities = caps;
  token = tok;
  creation_tick = inc64 sec.system_ticks;
  last_activity_tick = inc64 sec.system_ticks;
  client_ip = ip;
  status = valid;
  hijack_attempts = 0;
}

-- `session_create`; the option is the pointer that it returns.
pub create : Security → ℕ → ℕ → ℕ → ℕ → Sample → Sample → Security × Option ℕ
unfolding generate_token
create sec pid ring caps ip s t = elim (find_first is_free sec.sessions) [
  | none ↦ (sec, none)
  | some (i, old) ↦ (
    record sec {
      sessions = set sec.sessions i (fresh_session sec pid ring caps ip (generate_token s t));
      next_session_id = inc32 sec.next_session_id;
      system_ticks = inc64 sec.system_ticks;
    },
    some i,
  )
]

abbrev pub has_session : ℕ → XenithraSession → Bool
has_session id s = s.session_id == id

-- `!token || s->token.high != token->high || s->token.low != token->low`
abbrev pub token_differs : SecureToken → Option SecureToken → Bool
token_differs own none = true
token_differs own (some t) = not (own.high == t.high) || not (own.low == t.low)

-- The entry after a wrong token: the third attempt locks it.
abbrev pub strike : XenithraSession → XenithraSession
strike s = record s {
  hijack_attempts = inc32 s.hijack_attempts;
  status = if leb 3 (inc32 s.hijack_attempts) then hijack_attempt_detected else s.status;
}

-- The body of the loop of `session_validate`, at the entry with the id that is asked for.
pub validate_at : Security → ℕ → XenithraSession → Option SecureToken → ℕ → ℕ → Security × ℕ
validate_at sec i s token caller_pid required_cap =
    if not (is_valid s.status)
    then (sec, 0)
    else if token_differs s.token token
    then (
      record sec {
        sessions = set sec.sessions i (strike s);
        total_blocked_hijacks = inc32 sec.total_blocked_hijacks;
      },
      0,
    )
    else if not (s.owner_pid == caller_pid) && not (s.owner_pid == 0)
    then (
      record sec {
        sessions = set sec.sessions i (record s {
          hijack_attempts = inc32 s.hijack_attempts;
          status = hijack_attempt_detected;
        });
        total_blocked_hijacks = inc32 sec.total_blocked_hijacks;
      },
      0,
    )
    else if not (bit_and s.capabilities required_cap == required_cap)
    then (sec, 0)
    else (
      record sec {
        sessions = set sec.sessions i (record s { last_activity_tick = inc64 sec.system_ticks });
        system_ticks = inc64 sec.system_ticks;
      },
      1,
    )

pub validate : Security → ℕ → Option SecureToken → ℕ → ℕ → Security × ℕ
validate sec id token caller_pid required_cap = elim (find_first (has_session id) sec.sessions) [
  | none ↦ (sec, 0)
  | some (i, s) ↦ validate_at sec i s token caller_pid required_cap
]

pub revoke : Security → ℕ → SessionStatus → Security
revoke sec id reason = elim (find_first (has_session id) sec.sessions) [
  | none ↦ sec
  | some (i, s) ↦ record sec {
    sessions =
        set sec.sessions i (record s { status = reason; token = record { high = 0; low = 0 } });
  }
]

pub guard_audit : Security → ℕ
guard_audit sec =
    count (λ (s : XenithraSession). not (s.session_id == 0) && is_hijacked s.status) sec.sessions

pub get_active_session_count : Security → ℕ
get_active_session_count sec =
    count (λ (s : XenithraSession). not (s.session_id == 0) && is_valid s.status) sec.sessions

pub get_blocked_hijacks_count : Security → ℕ
get_blocked_hijacks_count sec = sec.total_blocked_hijacks

-- `none` is NULL.
pub get_session : Security → ℤ → Option XenithraSession
get_session sec (pos i) = if ltb i max_sessions then get_elem? sec.sessions i else none
get_session sec (negsuc n) = none

abbrev pub master_capabilities : ℕ
master_capabilities =
    bit_or
      (bit_or (bit_or (bit_or cap_system_admin cap_network_socket) cap_firewall_control)
        cap_storage_write)
      cap_user_desktop

abbrev pub user_capabilities : ℕ
user_capabilities = bit_or cap_user_desktop cap_network_socket

-- `security_init`: all slots expire, and the kernel's and the user's session are created.
pub init : Security → Sample → Sample → Sample → Sample → Security
init sec a b c d =
    let cleared = record sec {
      sessions =
          map (λ (s : XenithraSession). record s { status = expired; session_id = 0 }) sec.sessions;
      total_blocked_hijacks = 0;
    } in
    let first = (create cleared 0 0 master_capabilities 0x7F000001 a b).0 in
    (create first 1 3 user_capabilities 0x7F000001 c d).0

-- `x & (1 << k)` as a test, and `x | (1 << k)`.
abbrev pub has_bit : ℕ → ℕ → Bool
has_bit x k = x / 2 ^ k % 2 == 1

abbrev pub set_bit : ℕ → ℕ → ℕ
set_bit x k = if has_bit x k then x else x + 2 ^ k

-- `security_enable_smep_smap`: the CR4 that is in force afterwards, from CPUID's greatest leaf, EBX
-- of leaf 7, and CR4 before.
pub enable_smep_smap : ℕ → ℕ → ℕ → ℕ
enable_smep_smap max_leaf ebx cr4 =
    if ltb max_leaf 7
    then cr4
    else let smep = if has_bit ebx 7 then set_bit cr4 20 else cr4 in
      if has_bit ebx 20 then set_bit smep 21 else smep
