-- ===== src/Sched/Ready/Boot.antt =====
-- What `sched_init` of kernel/sched/sched.c leaves.
use operating_system_sctrach.Common.{
  ℕ, ◌≡◌, refl, sym, ap, subst, ◌∙◌, List, [], ◌∷◌, Option, none, some, false, arith, lt→ltb,
  if◌then◌else◌,
}
use operating_system_sctrach.Common.Memory.{write, write_self, write-each}
use operating_system_sctrach.Sched.Types.{Sched, running, empty_queue}
use operating_system_sctrach.Sched.Queue.Links.{IsQueue, first}
use operating_system_sctrach.Sched.Core.{
  sched_init, cleared, create_named_kthread, start_thread, free_slot, clamp_priority, set_thread,
  is_free, idle_name,
}
use operating_system_sctrach.Sched.Ready.{AreReady}
use operating_system_sctrach.Sched.Ready.Move.{AreReady-threads}
use operating_system_sctrach.Sched.Ready.Create.{IsStarted, start_thread-AreReady}

cleared-AreReady :
    (s : Sched) → AreReady (cleared s).threads (cleared s).ready_queues (λ _. []) (λ _. none)
unfolding cleared
cleared-AreReady s = record {
  queues = λ l h.
      subst (λ b. IsQueue (cleared s).threads (if b then empty_queue else s.ready_queues l) [])
        (sym (lt→ltb l 6 h)) (record { head_is = refl; tail_is = refl; links = tt; distinct = tt });
  homes = λ l h. tt;
  taken = λ x l k. absurd (ground arith);
  isr = refl;
}

-- What `sched_init` makes of the cleared scheduler: the idle thread takes slot 0.
sched_init-slot :
    (s : Sched) (entry : ℕ)
    → create_named_kthread (cleared s) entry 0 idle_name
      ≡ (start_thread (cleared s) 0 entry 0 idle_name, some 0)
unfolding create_named_kthread cleared free_slot clamp_priority
sched_init-slot s entry = refl

-- `sched_init` once the thread is made, if it is.
abbrev begun : Sched × Option ℕ → Sched
begun (s, t) =
    let made = record s { idle_thread = t } in
    elim t [
      | some i ↦ record (set_thread made i (record (made.threads i) { state = running })) {
        current_thread = some i;
      }
      | none ↦ made
    ]

sched_init-begun :
    (s : Sched) (entry : ℕ)
    → sched_init s entry ≡ begun (start_thread (cleared s) 0 entry 0 idle_name, some 0)
unfolding sched_init
sched_init-begun s entry = ap begun (sched_init-slot s entry)

begun-IsStarted :
    (s : Sched) (qs : ℕ → List ℕ) (home : ℕ → Option ℕ) (i : ℕ)
    → AreReady s.threads s.ready_queues qs home
    → IsStarted (begun (s, some i))
begun-IsStarted s qs home i r =
    let now = record (s.threads i) { state = running } in
    record {
      qs = qs;
      home = home;
      ready = AreReady-threads s.threads (write s.threads i now) s.ready_queues qs home r (λ y l k.
          write-each
            (λ x t.
              home x ≡ some l
              → (t.next ≡ (s.threads x).next)
                × (t.prev ≡ (s.threads x).prev)
                × (is_free t.state ≡ false))
            s.threads i now y (λ _. (refl, refl, refl)) (λ _ e. (refl, refl, r.taken y l e)) k);
      idle = i;
      idle_is = refl;
    }

pub sched_init-IsStarted : (s : Sched) (entry : ℕ) → IsStarted (sched_init s entry)
sched_init-IsStarted s entry = subst IsStarted (sym (sched_init-begun s entry)) (
    begun-IsStarted (start_thread (cleared s) 0 entry 0 idle_name) (write (λ _. []) 0 (0 ∷ []))
      (write (λ _. none) 0 (some 0)) 0
      (start_thread-AreReady (cleared s) 0 entry 0 idle_name (λ _. []) (λ _. none)
        (cleared-AreReady s) (omega arith) refl))

-- `sched_init` leaves the idle thread both running and first in the lowest queue.
pub sched_init-idle_queued :
    (s : Sched) (entry : ℕ)
    → let s' = sched_init s entry in
      (s'.current_thread ≡ some 0) × ((s'.ready_queues 0).head ≡ some 0)
sched_init-idle_queued s entry =
    let r =
      start_thread-AreReady (cleared s) 0 entry 0 idle_name (λ _. []) (λ _. none)
        (cleared-AreReady s) (omega arith) refl in
    subst (λ s'. (s'.current_thread ≡ some 0) × ((s'.ready_queues 0).head ≡ some 0))
      (sym (sched_init-begun s entry))
      (refl, (r.queues 0 (omega arith)).head_is ∙ ap first (write_self (λ _. []) 0 (0 ∷ [])))
