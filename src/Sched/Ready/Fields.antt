-- ===== src/Sched/Ready/Fields.antt =====
-- The operations of kernel/sched/sched.c that change a thread but neither its links nor its state.
use operating_system_sctrach.Common.{
  ℕ, zero, suc, ◌+◌, ◌≡◌, refl, ap, ◌∙◌, none, some, arith, Option,
}
use operating_system_sctrach.Common.Memory.{write}
use operating_system_sctrach.Sched.Types.{Thread, Sched}
use operating_system_sctrach.Sched.Core.{is_free, is_running, set_affinity, boost, set_deadline}
use operating_system_sctrach.Sched.Tick.{watch, watch_from, watchdog_tick}
use operating_system_sctrach.Sched.Ready.{IsScheduled}
use operating_system_sctrach.Sched.Ready.Move.{AreReady-threads}

-- A thread with the same links and the same state.
abbrev pub Alike : Thread → Thread → Type 0
Alike t t' = (t'.next ≡ t.next) × (t'.prev ≡ t.prev) × (t'.state ≡ t.state)

pub IsScheduled-Alike :
    (s s' : Sched)
    → s'.ready_queues ≡ s.ready_queues
    → s'.idle_thread ≡ s.idle_thread
    → s'.current_thread ≡ s.current_thread
    → ((y : ℕ) → Alike (s.threads y) (s'.threads y))
    → IsScheduled s
    → IsScheduled s'
IsScheduled-Alike s s' rq idle current same v = record {
  qs = v.qs;
  home = v.home;
  ready = rw rq (
      AreReady-threads s.threads s'.threads s.ready_queues v.qs v.home v.ready
        (λ y l k. ((same y).0, (same y).1, ap is_free (same y).2 ∙ v.ready.taken y l k)));
  idle = v.idle;
  idle_is = idle ∙ v.idle_is;
  thread = v.thread;
  current_is = current ∙ v.current_is;
  runs = ap is_running (same v.thread).2 ∙ v.runs;
  outside = v.outside;
}

watch-Alike : (s : Sched) (i y : ℕ) → Alike (s.threads y) ((watch s i).threads y)
unfolding watch write
watch-Alike s i y = ground arith

watch-same :
    (s : Sched) (i : ℕ)
    → ((watch s i).ready_queues ≡ s.ready_queues)
      × ((watch s i).idle_thread ≡ s.idle_thread)
      × ((watch s i).current_thread ≡ s.current_thread)
unfolding watch
watch-same s i = ground arith

watch_from-IsScheduled :
    (n : ℕ) (s : Sched) (i : ℕ) → IsScheduled s → IsScheduled (watch_from n s i)
unfolding watch_from
watch_from-IsScheduled zero s i v = v
watch_from-IsScheduled (suc n) s i v =
    let (a, b, c) = watch-same s i in
    watch_from-IsScheduled n (watch s i) (i + 1)
      (IsScheduled-Alike s (watch s i) a b c (watch-Alike s i) v)

pub watchdog_tick-IsScheduled : (s : Sched) → IsScheduled s → IsScheduled (watchdog_tick s)
unfolding watchdog_tick
watchdog_tick-IsScheduled s v = watch_from-IsScheduled 128 s 0 v

pub set_affinity-IsScheduled :
    (s : Sched) (t : Option ℕ) (mask : ℕ) → IsScheduled s → IsScheduled (set_affinity s t mask)
unfolding set_affinity write
set_affinity-IsScheduled s none mask v = v
set_affinity-IsScheduled s (some x) mask v =
    IsScheduled-Alike s (set_affinity s (some x) mask) refl refl refl (λ y. ground arith) v

pub set_deadline-IsScheduled :
    (s : Sched) (t : Option ℕ) (ms : ℕ) → IsScheduled s → IsScheduled (set_deadline s t ms)
unfolding set_deadline write
set_deadline-IsScheduled s none ms v = v
set_deadline-IsScheduled s (some x) ms v =
    IsScheduled-Alike s (set_deadline s (some x) ms) refl refl refl (λ y. ground arith) v

pub boost-IsScheduled :
    (s : Sched) (t : Option ℕ) (p : ℕ) → IsScheduled s → IsScheduled (boost s t p)
unfolding boost write
boost-IsScheduled s none p v = v
boost-IsScheduled s (some x) p v =
    IsScheduled-Alike s (boost s (some x) p) (ground arith) (ground arith) (ground arith)
      (λ y. ground arith) v
