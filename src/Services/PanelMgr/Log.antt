-- ===== src/Services/PanelMgr/Log.antt =====
-- The ring of events of services/panelmgr/panelmgr.c as a list of at most 256 entries.
use operating_system_sctrach.Common.{
  ℕ, zero, suc, ◌+◌, ◌%◌, ◌≤◌, ◌<◌, ◌≡◌, refl, ap, ◌∙◌, List, [], ◌∷◌, ◌++◌, Bool, Option, take,
  drop, ltb, ◌==◌, if◌then◌else◌, arith, Bool-cases, inl, inr, false,
}
use operating_system_sctrach.Common.Memory.{write}
use operating_system_sctrach.Common.Ring.{around, around-push}
use operating_system_sctrach.Services.PanelMgr.{
  PanelMgr, PanelLogEntry, PanelLogLevel, add_entry, filled, copy_entries, get_log,
}

-- The events that the ring holds, the oldest first.
abbrev pub events : PanelMgr → List PanelLogEntry
events p = around 256 p.log_ring p.log_head p.log_count

pub record IsLog (p : PanelMgr) : Type 0 where
  pub head_bound : p.log_head < 256
  pub count_bound : p.log_count ≤ 256

-- The entry that an event becomes.
abbrev pub new_entry :
    PanelMgr → PanelLogLevel → Option (List ℕ) → ℕ → Option (List ℕ) → PanelLogEntry
new_entry p level source event_id message =
    filled (p.log_ring ((p.log_head + p.log_count) % 256)) p.next_log_id level source event_id
      message

-- Writing a full ring's oldest slot and going on by one drops the oldest entry.
around-push_full :
    (m : ℕ → PanelLogEntry) (e : PanelLogEntry) (h c : ℕ)
    → h < 256
    → c ≡ 256
    → around 256 (write m ((h + c) % 256) e) ((h + 1) % 256) c
      ≡ (if c == 256 then drop 1 (around 256 m h c) else around 256 m h c) ++ (e ∷ [])
unfolding around
around-push_full m e h c hb full =
    let slot : (h + 256) % 256 ≡ ((h + 1) % 256 + 255) % 256 = omega arith in
    rw (full, slot) (around-push 256 m e ((h + 1) % 256) 255 (omega arith) (omega arith))

-- An event goes behind those that are held, and the oldest of 256 is dropped.
add_entry-events :
    (p : PanelMgr) (level : PanelLogLevel) (source : Option (List ℕ)) (event_id : ℕ)
    (message : Option (List ℕ))
    → IsLog p
    → let p' = add_entry p level source event_id message in
      let e = new_entry p level source event_id message in
      IsLog p'
      × (events p' ≡ (if p.log_count == 256 then drop 1 (events p) else events p) ++ (e ∷ []))
unfolding add_entry around
add_entry-events p level source event_id message v =
    let e = new_entry p level source event_id message in
    elim (Bool-cases (ltb p.log_count 256)) [
      | inl k ↦
          let room : (p.log_count == 256) ≡ false = ground arith in
          let next : p.log_count + 1 ≡ suc p.log_count = omega arith in
          rw (add_entry, k, room, next)
            (
              record { head_bound = v.head_bound; count_bound = ground arith },
              around-push 256 p.log_ring e p.log_head p.log_count v.head_bound (ground arith),
            )
      | inr k ↦
          let full : p.log_count ≡ 256 = ground (arith, v.count_bound) in
          rw (add_entry, k)
            (
              record { head_bound = omega arith; count_bound = v.count_bound },
              around-push_full p.log_ring e p.log_head p.log_count v.head_bound full,
            )
    ]

copy_entries-around :
    (n : ℕ) (p : PanelMgr) (i : ℕ)
    → copy_entries n p i ≡ around 256 p.log_ring ((p.log_head + i) % 256) n
unfolding copy_entries around
copy_entries-around zero p i = refl
copy_entries-around (suc n) p i =
    let next : (p.log_head + (i + 1)) % 256 ≡ ((p.log_head + i) % 256 + 1) % 256 = omega arith in
    ap (λ r. p.log_ring ((p.log_head + i) % 256) ∷ r)
      (copy_entries-around n p (i + 1) ∙ ap (λ j. around 256 p.log_ring j n) next)

take-around :
    (k n : ℕ) (m : ℕ → PanelLogEntry) (i : ℕ) → k ≤ n → around 256 m i k ≡ take k (around 256 m i n)
unfolding around
take-around zero n m i h = refl
take-around (suc k) zero m i h = absurd (omega arith)
take-around (suc k) (suc n) m i h =
    ap (λ r. m i ∷ r) (take-around k n m ((i + 1) % 256) (omega arith))

take-around_all :
    (k n : ℕ) (m : ℕ → PanelLogEntry) (i : ℕ) → n ≤ k → around 256 m i n ≡ take k (around 256 m i n)
unfolding around
take-around_all zero zero m i h = refl
take-around_all (suc k) zero m i h = refl
take-around_all zero (suc n) m i h = absurd (omega arith)
take-around_all (suc k) (suc n) m i h =
    ap (λ r. m i ∷ r) (take-around_all k n m ((i + 1) % 256) (omega arith))

get_log-events :
    (p : PanelMgr) (max_entries : ℕ) → IsLog p → get_log p max_entries ≡ take max_entries (events p)
unfolding get_log
get_log-events p max_entries v =
    let start : (p.log_head + 0) % 256 ≡ p.log_head = omega (arith, v.head_bound) in
    elim (Bool-cases (ltb p.log_count max_entries)) [
      | inl e ↦
          ap (λ (b : Bool). copy_entries (if b then p.log_count else max_entries) p 0) e
          ∙ copy_entries-around p.log_count p 0
          ∙ ap (λ j. around 256 p.log_ring j p.log_count) start
          ∙ take-around_all max_entries p.log_count p.log_ring p.log_head (ground arith)
      | inr e ↦
          ap (λ (b : Bool). copy_entries (if b then p.log_count else max_entries) p 0) e
          ∙ copy_entries-around max_entries p 0
          ∙ ap (λ j. around 256 p.log_ring j max_entries) start
          ∙ take-around max_entries p.log_count p.log_ring p.log_head (ground arith)
    ]

-- The ring is a list of at most 256 events: an event that is logged goes behind those that are held, of
-- which the oldest is dropped if they are 256 already, and reading the log gives the first `max_entries`
-- of the list, the oldest first.
pub get_log-add_entry :
    (p : PanelMgr) (level : PanelLogLevel) (source : Option (List ℕ)) (event_id : ℕ)
    (message : Option (List ℕ)) (max_entries : ℕ)
    → IsLog p
    → let p' = add_entry p level source event_id message in
      let e = new_entry p level source event_id message in
      let held = if p.log_count == 256 then drop 1 (events p) else events p in
      IsLog p' × (get_log p' max_entries ≡ take max_entries (held ++ (e ∷ [])))
get_log-add_entry p level source event_id message max_entries v =
    let p' = add_entry p level source event_id message in
    let (w, grown) = add_entry-events p level source event_id message v in
    (w, get_log-events p' max_entries w ∙ ap (take max_entries) grown)
