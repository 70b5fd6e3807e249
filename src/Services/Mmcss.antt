-- ===== src/Services/Mmcss.antt =====
-- The multimedia class scheduler of services/mmcss/mmcss.c, over the scheduler (Sched) and the message
-- queue (GuiIpc). The array of clients is the list of its entries in use, and a NULL thread is `none`. The
-- service's own thread, which only repeats `mmcss_schedule_clients` and sends figures, is left out.
pub mod Deadlines
use operating_system_sctrach.Common.{
  ℕ, ◌+◌, ◌-◌, ◌*◌, ◌/◌, ◌%◌, ◌^◌, List, [], ◌∷◌, ◌++◌, map, Option, none, some, Bool, true, false,
  not, ◌||◌, ltb, leb, ◌==◌, if◌then◌else◌, length, codes, copy_text,
}
use operating_system_sctrach.Sched.Types.{Sched, prio_realtime}
use operating_system_sctrach.Sched.Core.{boost, set_deadline, set_affinity}
use operating_system_sctrach.GuiIpc.{Ipc, send_notification}

abbrev pub max_clients : ℕ
max_clients = 16

-- `MMCSS_AUDIO_PERIOD_US`
abbrev pub audio_period_us : ℕ
audio_period_us = 5000

pub record MmcssClient : Type 0 where
  pub name : List ℕ
  pub thread : Option ℕ
  pub class : ℕ
  pub period_us : ℕ
  pub next_deadline : ℕ
  pub latency_us : ℕ
  pub missed_deadlines : ℕ
  pub active : Bool

pub record Mmcss : Type 0 where
  pub clients : List MmcssClient
  pub avg_latency_us : ℕ
  pub cpu_usage_pct : ℕ

-- `mmcss_register`; `buf` is the stack frame of the function that writes the notification.
unfoldable pub register :
    (ℕ → ℕ) → Mmcss → Sched → Ipc → List ℕ → Option ℕ → ℕ → ℕ → Mmcss × Sched × Ipc
register buf m s ipc name thread class period_us =
    let period = if period_us == 0 then audio_period_us else period_us in
    if leb max_clients (length m.clients) then (m, s, ipc) else (
      record m {
        clients =
            m.clients
            ++ (record {
              name = copy_text 31 name;
              thread = thread;
              class = class;
              period_us = period;
              next_deadline = (s.sched_ticks + period / 1000) % 2 ^ 64;
              latency_us = 0;
              missed_deadlines = 0;
              active = true;
            }
                ∷ []);
      },
      set_affinity (set_deadline s thread (period / 1000)) thread 2,
      send_notification buf ipc (codes "MMCSS") name (codes "multimedia"),
    )

-- Equality of two thread pointers.
abbrev pub same_thread : Option ℕ → Option ℕ → Bool
same_thread none none = true
same_thread none (some u) = false
same_thread (some t) none = false
same_thread (some t) (some u) = t == u

-- `mmcss_unregister`
unfoldable pub unregister : Mmcss → Option ℕ → Mmcss
unregister m thread = record m {
  clients =
      map
        (λ (c : MmcssClient).
          if same_thread c.thread thread then record c { active = false } else c)
        m.clients;
}

abbrev pub is_null : Option ℕ → Bool
is_null none = true
is_null (some t) = false

-- A client that the loop does not skip.
abbrev pub is_served : MmcssClient → Bool
is_served c = not (not c.active || is_null c.thread)

-- Whether the deadline was missed: the client's count and latency, and the boost of its thread.
unfoldable pub check : ℕ → MmcssClient → Sched → MmcssClient × Sched
check now c s =
    if ltb c.next_deadline now
    then (
      record c {
        missed_deadlines = (c.missed_deadlines + 1) % 2 ^ 32;
        latency_us = (now - c.next_deadline) * 1000 % 2 ^ 32;
      },
      boost s c.thread prio_realtime,
    )
    else (record c { latency_us = 0 }, s)

-- The next deadline, once the last is reached.
unfoldable pub renew : ℕ → MmcssClient → Sched → MmcssClient × Sched
renew now c s =
    if leb c.next_deadline now
    then (
      record c { next_deadline = (now + c.period_us / 1000) % 2 ^ 64 },
      set_deadline s c.thread (c.period_us / 1000),
    )
    else (c, s)

-- One client of the loop.
unfoldable pub serve : ℕ → MmcssClient → Sched → MmcssClient × Sched
serve now c s =
    let (c1, s1) = check now c s in
    let (c2, s2) = renew now c1 s1 in if is_served c then (c2, s2) else (c, s)

-- The loop, with the latency and the number of the clients served so far.
unfoldable pub serve_all : ℕ → List MmcssClient → Sched → ℕ → ℕ → List MmcssClient × Sched × ℕ × ℕ
serve_all now [] s total count = ([], s, total, count)
serve_all now (c ∷ cs) s total count =
    let (c', s') = serve now c s in
    let (cs', last, sum, n) =
      serve_all now cs s' (if is_served c then (total + c'.latency_us) % 2 ^ 32 else total)
        (if is_served c then count + 1 else count) in
    (c' ∷ cs', last, sum, n)

-- `mmcss_schedule_clients`
unfoldable pub schedule_clients : Mmcss → Sched → Mmcss × Sched
schedule_clients m s =
    let (cs, s', total, count) = serve_all s.sched_ticks m.clients s 0 0 in
    (
      record {
        clients = cs;
        avg_latency_us = if count == 0 then 0 else total / count;
        cpu_usage_pct = count * 3;
      },
      s',
    )
