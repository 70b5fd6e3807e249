-- ===== src/Services/Mmcss/Deadlines.antt =====
-- What one tick of services/mmcss/mmcss.c does to the clients' deadlines and to the scheduler.
use operating_system_sctrach.Common.{
  ℕ, ◌+◌, ◌/◌, ◌%◌, ◌^◌, ◌≤◌, ◌<◌, ◌≡◌, ◌≢◌, sym, ◌∙◌, List, [], ◌∷◌, true, false, ltb, leb,
  if◌then◌else◌, All, arith, Bool-cases, inl, inr,
}
use operating_system_sctrach.Sched.Types.{Sched}
use operating_system_sctrach.Sched.Ready.{IsScheduled}
use operating_system_sctrach.Sched.Ready.Fields.{boost-IsScheduled, set_deadline-IsScheduled}
use operating_system_sctrach.Services.Mmcss.{
  Mmcss, MmcssClient, is_served, check, renew, serve, serve_all, schedule_clients,
}

-- The deadline of a client that is served is not in the past.
abbrev pub IsOnTime : ℕ → MmcssClient → Type 0
IsOnTime now c = is_served c ≡ true → now ≤ c.next_deadline

check-IsScheduled :
    (now : ℕ) (c : MmcssClient) (s : Sched) → IsScheduled s → IsScheduled (check now c s).1
unfolding check
check-IsScheduled now c s v = elim (Bool-cases (ltb c.next_deadline now)) [
  | inl e ↦ rw (check, e) (boost-IsScheduled s c.thread 4 v)
  | inr e ↦ rw (check, e) v
]

renew-IsScheduled :
    (now : ℕ) (c : MmcssClient) (s : Sched) → IsScheduled s → IsScheduled (renew now c s).1
unfolding renew
renew-IsScheduled now c s v = elim (Bool-cases (leb c.next_deadline now)) [
  | inl e ↦ rw (renew, e) (set_deadline-IsScheduled s c.thread (c.period_us / 1000) v)
  | inr e ↦ rw (renew, e) v
]

serve-IsScheduled :
    (now : ℕ) (c : MmcssClient) (s : Sched) → IsScheduled s → IsScheduled (serve now c s).1
unfolding serve
serve-IsScheduled now c s v =
    let (c1, s1) = check now c s in
    let w = renew-IsScheduled now c1 s1 (check-IsScheduled now c s v) in
    elim (Bool-cases (is_served c)) [ inl e ↦ rw (serve, e) w | inr e ↦ rw (serve, e) v ]

check-period : (now : ℕ) (c : MmcssClient) (s : Sched) → (check now c s).0.period_us ≡ c.period_us
unfolding check
check-period now c s = ground arith

renew-on_time :
    (now : ℕ) (c : MmcssClient) (s : Sched)
    → c.period_us < 2 ^ 32
    → now + 2 ^ 32 < 2 ^ 64
    → now ≤ (renew now c s).0.next_deadline
unfolding renew
renew-on_time now c s p h = elim (Bool-cases (leb c.next_deadline now)) [
  | inl e ↦ rw (renew, e) (omega arith)
  | inr e ↦ rw (renew, e) (ground arith)
]

serve-IsOnTime :
    (now : ℕ) (c : MmcssClient) (s : Sched)
    → c.period_us < 2 ^ 32
    → now + 2 ^ 32 < 2 ^ 64
    → IsOnTime now (serve now c s).0
unfolding serve
serve-IsOnTime now c s p h =
    let (c1, s1) = check now c s in
    let small : c1.period_us < 2 ^ 32 = omega (arith, check-period now c s, p) in
    elim (Bool-cases (is_served c)) [
      | inl e ↦ rw (serve, e) (λ _. renew-on_time now c1 s1 small h)
      | inr e ↦ rw (serve, e) (λ k. absurd (true-false (sym k ∙ e)))
    ]
  where
    true-false : true ≢ false
    true-false k = absurd cc

serve_all-IsScheduled :
    (now : ℕ) (cs : List MmcssClient) (s : Sched) (total count : ℕ)
    → All (λ c. c.period_us < 2 ^ 32) cs
    → now + 2 ^ 32 < 2 ^ 64
    → IsScheduled s
    → let r = serve_all now cs s total count in All (IsOnTime now) r.0 × IsScheduled r.1
unfolding serve_all
serve_all-IsScheduled now [] s total count p h v = (tt, v)
serve_all-IsScheduled now (c ∷ cs) s total count p h v =
    let (c', s') = serve now c s in
    let (times, w) =
      serve_all-IsScheduled now cs s'
        (if is_served c then (total + c'.latency_us) % 2 ^ 32 else total)
        (if is_served c then count + 1 else count) p.1 h (serve-IsScheduled now c s v) in
    ((serve-IsOnTime now c s p.0 h, times), w)

-- After `mmcss_schedule_clients`, no client that is served has a deadline in the past, and the scheduler
-- is still in order, if it was before, the periods fit into 32 bits and the tick counter is not about to
-- wrap around.
pub schedule_clients-IsScheduled :
    (m : Mmcss) (s : Sched)
    → All (λ c. c.period_us < 2 ^ 32) m.clients
    → s.sched_ticks + 2 ^ 32 < 2 ^ 64
    → IsScheduled s
    → let (m', s') = schedule_clients m s in
      All (IsOnTime s.sched_ticks) m'.clients × IsScheduled s'
unfolding schedule_clients
schedule_clients-IsScheduled m s p h v = serve_all-IsScheduled s.sched_ticks m.clients s 0 0 p h v
