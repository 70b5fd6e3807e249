-- ===== src/Sched/Dpc/Fifo.antt =====
-- The ring of deferred calls of kernel/sched/sched.c as a queue.
use operating_system_sctrach.Common.{
  ℕ, suc, ◌+◌, ◌-◌, ◌%◌, ◌≤◌, ◌<◌, ◌≡◌, refl, ap, List, [], ◌∷◌, ◌++◌, leb, if◌then◌else◌, arith,
  Bool-cases, inl, inr, ◌^◌,
}
use operating_system_sctrach.Common.Ring.{around, around-push}
use operating_system_sctrach.Sched.Types.{DpcEntry, DpcQueue}
use operating_system_sctrach.Sched.Dpc.{enqueue, take_entry}

-- The entries that wait, the oldest first.
abbrev pub waiting : DpcQueue → List DpcEntry
waiting d = around 64 d.slots d.first d.pending

-- The ends of the ring are slots, and lie `pending` apart.
pub record IsRing (d : DpcQueue) : Type 0 where
  pub first_bound : d.first < 64
  pub pending_bound : d.pending ≤ 64
  pub last_is : d.last ≡ (d.first + d.pending) % 64

-- `dpc_queue` puts the call behind those that wait while there is room, and drops it when 64 wait.
pub enqueue-waiting :
    (d : DpcQueue) (routine context urgent : ℕ)
    → IsRing d
    → let e : DpcEntry = record { routine = routine; context = context; urgent = urgent } in
      let d' = enqueue d routine context urgent in
      IsRing d' × (waiting d' ≡ (if leb 64 d.pending then waiting d else waiting d ++ (e ∷ [])))
unfolding enqueue
enqueue-waiting d routine context urgent v =
    let e : DpcEntry = record { routine = routine; context = context; urgent = urgent } in
    elim (Bool-cases (leb 64 d.pending)) [
      | inl full ↦ rw (enqueue, full) (v, refl)
      | inr room ↦
          let n : (d.pending + 1) % 2 ^ 32 ≡ suc d.pending = ground (arith, v.pending_bound) in
          rw (enqueue, room)
            (
              record {
                first_bound = v.first_bound;
                pending_bound = ground arith;
                last_is = ground (arith, v.last_is);
              },
              rw (n, v.last_is)
                  (around-push 64 d.slots e d.first d.pending v.first_bound (ground arith)),
            )
    ]

-- Taking an entry from a ring that is not empty returns the oldest and leaves the others in order.
pub take_entry-waiting :
    (d : DpcQueue)
    → IsRing d
    → 1 ≤ d.pending
    → let (e, d') = take_entry d in IsRing d' × (waiting d ≡ e ∷ waiting d')
unfolding take_entry around
take_entry-waiting d v h =
    let one_more : d.pending ≡ suc (d.pending - 1) = omega arith in
    (
      record {
        first_bound = omega arith;
        pending_bound = omega arith;
        last_is = omega (arith, v.last_is);
      },
      ap (around 64 d.slots d.first) one_more,
    )
