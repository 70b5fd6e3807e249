-- ===== src/Sched/Tick/Watchdog.antt =====
-- Priorities under the deadline watchdog and at the end of a quantum: kernel/sched/sched.c.
use operating_system_sctrach.Common.{ℕ, zero, suc, ◌+◌, ◌≤◌, ◌≡◌, refl, inl, ◌⊎◌, arith}
use operating_system_sctrach.Common.Memory.{write}
use operating_system_sctrach.Sched.Types.{Sched, prio_high, prio_realtime}
use operating_system_sctrach.Sched.Tick.{watch, watch_from, watchdog_tick}

-- A thread keeps its priority, or falls from REALTIME to HIGH.
abbrev pub Demoted : ℕ → ℕ → Type 0
Demoted old new = (new ≡ old) ⊎ ((prio_realtime ≤ old) × (new ≡ prio_high))

watch-Demoted :
    (s : Sched) (i j : ℕ) → Demoted (s.threads j).priority ((watch s i).threads j).priority
unfolding watch write
watch-Demoted s i j = ground arith

Demoted-trans : (a b c : ℕ) → Demoted a b → Demoted b c → Demoted a c
Demoted-trans a b c h k = ground arith

watch_from-Demoted :
    (n : ℕ) (s : Sched) (i j : ℕ)
    → Demoted (s.threads j).priority ((watch_from n s i).threads j).priority
unfolding watch_from
watch_from-Demoted zero s i j = inl refl
watch_from-Demoted (suc n) s i j =
    Demoted-trans (s.threads j).priority ((watch s i).threads j).priority
      ((watch_from n (watch s i) (i + 1)).threads j).priority (watch-Demoted s i j)
      (watch_from-Demoted n (watch s i) (i + 1) j)

-- The watchdog changes no priority but that of a REALTIME thread, which it can only lower to HIGH.
pub watchdog_tick-Demoted :
    (s : Sched) (j : ℕ) → Demoted (s.threads j).priority ((watchdog_tick s).threads j).priority
unfolding watchdog_tick
watchdog_tick-Demoted s j = watch_from-Demoted 128 s 0 j
