-- ===== src/Exec/Smss.antt =====
-- The session manager of kernel/exec/smss.h and smss.c, over the scheduler (Sched) and the session guard
-- (Session). A thread runs from one `sched_sleep` to the next as one step, from the place that its number
-- names: 0 is its start. What the hardware answers to the calls of `session_create` is an argument.
-- The frames that the window manager thread draws and the transition to ring 3 are left out.
use operating_system_sctrach.Common.{ℕ, zero, suc, ◌+◌, List, Option, none, some, codes}
use operating_system_sctrach.Sched.Types.{Sched}
use operating_system_sctrach.Sched.Core.{create_kthread}
use operating_system_sctrach.Session
use operating_system_sctrach.Session.{
  Security, Sample, SessionStatus, revoke, cap_system_admin, cap_network_socket,
  cap_firewall_control, cap_storage_write, cap_user_desktop,
}

pub data LogonState : Type 0 where
  idle credential_ui validating failed success desktop_ready : LogonState

pub record SessionDesc : Type 0 where
  pub session_id : ℕ
  pub is_interactive : ℕ
  pub logon_state : LogonState
  pub session_name : List ℕ

abbrev pub pid_wininit : ℕ
pid_wininit = 12

abbrev pub pid_services : ℕ
pid_services = 16

abbrev pub pid_lsass : ℕ
pid_lsass = 20

abbrev pub pid_csrss_s1 : ℕ
pid_csrss_s1 = 24

abbrev pub pid_winlogon : ℕ
pid_winlogon = 28

abbrev pub pid_dwm : ℕ
pid_dwm = 32

abbrev pub pid_userinit : ℕ
pid_userinit = 40

-- `s_sessions` and `s_logon_state`
pub record Smss : Type 0 where
  pub session_0 : SessionDesc
  pub session_1 : SessionDesc
  pub logon : LogonState

-- The addresses of the thread functions.
pub record Entries : Type 0 where
  pub wininit : ℕ
  pub services : ℕ
  pub lsass : ℕ
  pub csrss : ℕ
  pub winlogon : ℕ
  pub dwm : ℕ
  pub userinit : ℕ

abbrev pub spawn : Sched → ℕ → ℕ → Sched
spawn s entry priority = (create_kthread s entry priority).0

unfoldable pub session_0_init : Entries → Sched → Smss → Sched × Smss
session_0_init e s m = (
  spawn (spawn (spawn s e.wininit 2) e.services 1) e.lsass 1,
  record m {
    session_0 = record {
      session_id = 0;
      is_interactive = 0;
      logon_state = desktop_ready;
      session_name = codes "Session-0 (Services)";
    };
  },
)

unfoldable pub session_1_init : Entries → Sched → Smss → Sched × Smss
session_1_init e s m = (
  spawn (spawn (spawn (spawn s e.csrss 0) e.winlogon 1) e.dwm 0) e.userinit 1,
  record m {
    session_1 = record {
      session_id = 1;
      is_interactive = 1;
      logon_state = idle;
      session_name = codes "Session-1 (Interactive Desktop)";
    };
  },
)

-- `smss_validate_credentials`, which takes every name and password.
unfoldable pub validate_credentials : Smss → List ℕ → List ℕ → Smss × ℕ
validate_credentials m username password = (record m { logon = success }, 1)

-- What the hardware answers, call after call.
abbrev pub Entropy : Type 0
Entropy = ℕ → Sample

-- A call of `session_create` whose result is not read, with the answers from number `i` on.
abbrev pub join : Security → ℕ → ℕ → ℕ → Entropy → ℕ → Security
join sec pid ring caps r i = (Session.create sec pid ring caps 0 (r i) (r (i + 1))).0

-- A step of a thread: where it goes on, what it leaves, and how long it sleeps, `none` where it ends.
unfoldable pub wininit_thread : ℕ → Entropy → Security → ℕ × Security × Option ℕ
wininit_thread zero r sec = (1, join sec pid_wininit 0 cap_system_admin r 0, some 5000)
wininit_thread (suc n) r sec = (1, sec, some 5000)

unfoldable pub services_scm_thread : ℕ → Entropy → Security → ℕ × Security × Option ℕ
services_scm_thread zero r sec =
    let sec1 = join sec pid_services 0 (cap_system_admin + cap_network_socket) r 0 in
    (1, join sec1 (pid_services + 100) 0 (cap_firewall_control + cap_network_socket) r 2, some 1000)
services_scm_thread (suc n) r sec = (1, sec, some 1000)

unfoldable pub lsass_thread : ℕ → Entropy → Security → ℕ × Security × Option ℕ
lsass_thread zero r sec = (1, join sec pid_lsass 0 cap_system_admin r 0, some 2000)
lsass_thread (suc n) r sec = (1, sec, some 2000)

unfoldable pub csrss_session1_thread : ℕ → Entropy → Security → ℕ × Security × Option ℕ
csrss_session1_thread zero r sec = (1, join sec pid_csrss_s1 1 cap_user_desktop r 0, some 500)
csrss_session1_thread (suc n) r sec = (1, sec, some 500)

unfoldable pub dwm_thread : ℕ → Entropy → Security → ℕ × Security × Option ℕ
dwm_thread zero r sec = (1, join sec pid_dwm 1 cap_user_desktop r 0, some 16)
dwm_thread (suc n) r sec = (1, sec, some 16)

unfoldable pub userinit_thread : ℕ → Entropy → Security → ℕ × Security × Option ℕ
userinit_thread zero r sec =
    (1, join sec pid_userinit 1 (cap_user_desktop + cap_storage_write) r 0, some 200)
userinit_thread (suc zero) r sec = (2, revoke sec pid_userinit SessionStatus.valid, none)
userinit_thread (suc (suc n)) r sec = (2, sec, none)

unfoldable pub winlogon_thread : ℕ → Entropy → Smss → Security → ℕ × Smss × Security × Option ℕ
winlogon_thread zero r m sec = (
  1,
  record m { logon = credential_ui },
  join sec pid_winlogon 1 (cap_user_desktop + cap_system_admin) r 0,
  some 1000,
)
winlogon_thread (suc zero) r m sec = (2, record m { logon = validating }, sec, some 500)
winlogon_thread (suc (suc zero)) r m sec = (3, record m { logon = success }, sec, some 100)
winlogon_thread (suc (suc (suc zero))) r m sec =
    (4, record m { logon = desktop_ready }, sec, some 2000)
winlogon_thread (suc (suc (suc (suc n)))) r m sec = (4, m, sec, some 2000)

-- The threads, and where each of them stands.
pub data Process : Type 0 where
  wininit services lsass csrss winlogon dwm userinit : Process

pub record System : Type 0 where
  pub smss : Smss
  pub security : Security
  pub at_wininit : ℕ
  pub at_services : ℕ
  pub at_lsass : ℕ
  pub at_csrss : ℕ
  pub at_winlogon : ℕ
  pub at_dwm : ℕ
  pub at_userinit : ℕ

-- One step of one thread.
unfoldable pub turn : Process → Entropy → System → System
turn wininit r w =
    let (at, sec, _) = wininit_thread w.at_wininit r w.security in
    record w { at_wininit = at; security = sec }
turn services r w =
    let (at, sec, _) = services_scm_thread w.at_services r w.security in
    record w { at_services = at; security = sec }
turn lsass r w =
    let (at, sec, _) = lsass_thread w.at_lsass r w.security in
    record w { at_lsass = at; security = sec }
turn csrss r w =
    let (at, sec, _) = csrss_session1_thread w.at_csrss r w.security in
    record w { at_csrss = at; security = sec }
turn dwm r w =
    let (at, sec, _) = dwm_thread w.at_dwm r w.security in record w { at_dwm = at; security = sec }
turn userinit r w =
    let (at, sec, _) = userinit_thread w.at_userinit r w.security in
    record w { at_userinit = at; security = sec }
turn winlogon r w =
    let (at, m, sec, _) = winlogon_thread w.at_winlogon r w.smss w.security in
    record w { at_winlogon = at; smss = m; security = sec }
