-- ===== src/Exec/Kpcr/Timer.antt =====
-- From the requests for deferred calls to the interrupt of the timer that runs them: kernel/exec/kpcr.c.
use operating_system_sctrach.Common.{ℕ, ◌≡◌, ◌≢◌, List, [], ◌∷◌, ◌++◌, Option, none, some}
use operating_system_sctrach.Heap.{kmalloc}
use operating_system_sctrach.Sched.Types.{Sched}
use operating_system_sctrach.Sched.Queue.Links.{NotIn}
use operating_system_sctrach.Exec.Kpcr.{
  Kpcr, Local, appended, queue_dpc, node_size, count_tick, set_irql, irql_dispatch,
}
use operating_system_sctrach.Exec.Kpcr.Calls.{Waiting, IsPending}

-- Requests for calls, one after the other: a callback and its context each.
abbrev pub queue_all : ℕ → List (ℕ × ℕ) → Local → Local
queue_all fuel [] l = l
queue_all fuel ((c, x) ∷ cs) l = queue_all fuel cs (queue_dpc fuel c x l)

abbrev pub granted_at : ℕ → Local → ℕ
granted_at fuel l = (kmalloc fuel l.heap node_size).1

-- No callback is NULL, and the heap gives every request a block that is not in the queue yet.
abbrev pub Served : ℕ → List (ℕ × ℕ) → Local → List ℕ → Type 0
Served fuel [] l ps = Unit {0}
Served fuel ((c, x) ∷ cs) l ps =
    (c ≢ 0)
    × (granted_at fuel l ≢ 0)
    × NotIn (granted_at fuel l) ps
    × Served fuel cs (queue_dpc fuel c x l) (ps ++ (granted_at fuel l ∷ []))

-- The requests with the blocks that they get.
abbrev granted : ℕ → List (ℕ × ℕ) → Local → List Waiting
granted fuel [] l = []
granted fuel ((c, x) ∷ cs) l = (granted_at fuel l, c, x) ∷ granted fuel cs (queue_dpc fuel c x l)

abbrev with_calls : List Waiting → Kpcr → Kpcr
with_calls [] k = k
with_calls ((p, c, x) ∷ es) k =
    with_calls es (record k { embedded_prcb = appended k.embedded_prcb p })

abbrev Holds : Local → Kpcr → List Waiting → Type 0
Holds l k es = (l.kpcr ≡ some k) × IsPending k.embedded_prcb l.nodes es

-- What the rest of the program has after the calls.
abbrev pub served_by {ℓ} : {W : Type ℓ} → (ℕ → ℕ → W → W) → List (ℕ × ℕ) → W → W
served_by effect [] w = w
served_by effect ((c, x) ∷ cs) w = served_by effect cs (effect c x w)

-- The control region while the tick runs.
abbrev raised : Local → Kpcr → Local
raised l k = record l { kpcr = some (set_irql irql_dispatch (count_tick k)) }

-- The level, the ticks and the ends of the queue of a control region.
abbrev pub summary : Option Kpcr → Option (ℕ × ℕ × ℕ × ℕ)
summary none = none
summary (some k) = some (
  k.current_irql, k.embedded_prcb.scheduler_ticks, k.embedded_prcb.dpc_queue_head,
  k.embedded_prcb.dpc_queue_count,
)

abbrev pub level : Option Kpcr → Option ℕ
level none = none
level (some k) = some k.current_irql
