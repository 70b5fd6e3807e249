-- ===== src/GuiIpc/Queue.antt =====
-- The message ring of kernel/gui/gui_ipc.c as a queue of at most 63 messages.
use operating_system_sctrach.Common.{
  ℕ, zero, suc, ◌+◌, ◌-◌, ◌%◌, ◌<◌, ◌≡◌, refl, sym, subst, ◌∙◌, List, [], ◌∷◌, ◌++◌, append_assoc,
  append_nil, drop, ◌==◌, if◌then◌else◌, arith, false, Bool-cases, inl, inr,
}
use operating_system_sctrach.Common.Memory.{write}
use operating_system_sctrach.Common.Ring.{around, around-push}
use operating_system_sctrach.GuiIpc.{
  Ipc, IpcMessage, ring_push, ring_flush, filled, next_slot, line_of, tick,
}

-- How many messages wait, and which, the oldest first.
abbrev pub waiting_count : Ipc → ℕ
waiting_count s = (s.ring_tail + 64 - s.ring_head) % 64

abbrev pub waiting : Ipc → List IpcMessage
waiting s = around 64 s.ring s.ring_head (waiting_count s)

-- Both ends of the ring are slots.
abbrev pub IsRing : Ipc → Type 0
IsRing s = (s.ring_head < 64) × (s.ring_tail < 64)

-- A message goes behind those that wait, and the oldest is dropped when 63 wait already.
pub ring_push-waiting :
    (s : Ipc) (json : ℕ → ℕ) (len : ℕ)
    → IsRing s
    → let s' = ring_push s json len in
      let m = filled (s.ring s.ring_tail) json len in
      IsRing s'
      × (waiting s' ≡ (if waiting_count s == 63 then drop 1 (waiting s) else waiting s) ++ (m ∷ []))
unfolding ring_push around
ring_push-waiting s json len v =
    let m = filled (s.ring s.ring_tail) json len in
    let k = waiting_count s in
    elim (Bool-cases (next_slot s.ring_tail == s.ring_head)) [
      | inl e ↦
          let full : k ≡ 63 = ground arith in
          let tail_is : s.ring_tail ≡ (next_slot s.ring_head + 62) % 64 = ground arith in
          let count : (next_slot s.ring_tail + 64 - next_slot s.ring_head) % 64 ≡ 63 =
            ground arith in
          let pushed =
            around-push 64 s.ring m (next_slot s.ring_head) 62 (omega arith) (omega arith) in
          rw (ring_push, e)
            (
              (omega arith, omega arith),
              rw (full, count)
                  (subst
                    (λ t.
                      around 64 (write s.ring t m) (next_slot s.ring_head) 63
                      ≡ around 64 s.ring (next_slot s.ring_head) 62 ++ (m ∷ []))
                    (sym tail_is) pushed),
            )
      | inr e ↦
          let room : (k == 63) ≡ false = ground arith in
          let tail_is : s.ring_tail ≡ (s.ring_head + k) % 64 = ground arith in
          let count : (next_slot s.ring_tail + 64 - s.ring_head) % 64 ≡ suc k = ground arith in
          let pushed = around-push 64 s.ring m s.ring_head k v.0 (omega arith) in
          rw (ring_push, e)
            (
              (omega arith, omega arith),
              rw (room, count)
                  (subst
                    (λ t. around 64 (write s.ring t m) s.ring_head (suc k) ≡ waiting s ++ (m ∷ []))
                    (sym tail_is) pushed),
            )
    ]

-- The lines of messages, one after the other.
abbrev pub lines_of : List IpcMessage → List ℕ
lines_of [] = []
lines_of (m ∷ ms) = line_of m ++ lines_of ms

ring_flush-sent :
    (n : ℕ) (s : Ipc)
    → IsRing s
    → waiting_count s < n
    → let s' = ring_flush n s in
      (s'.sent ≡ s.sent ++ lines_of (waiting s))
      × (s'.ring_head ≡ s'.ring_tail)
      × (s'.ring_tail ≡ s.ring_tail)
unfolding ring_flush around
ring_flush-sent zero s v h = absurd (omega arith)
ring_flush-sent (suc n) s v h = elim (Bool-cases (s.ring_head == s.ring_tail)) [
  | inl e ↦
      let empty : waiting_count s ≡ 0 = ground arith in
      let same : s.ring_head ≡ s.ring_tail = ground arith in
      rw (ring_flush, e, empty) (sym (append_nil s.sent), same, refl)
  | inr e ↦
      let line = line_of (s.ring s.ring_head) in
      let s1 = record s { sent = s.sent ++ line; ring_head = next_slot s.ring_head } in
      let count : waiting_count s ≡ suc (waiting_count s1) = ground arith in
      let rest = ring_flush-sent n s1 (omega arith, v.1) (omega arith) in
      rw (ring_flush, e, count)
        (rest.0 ∙ append_assoc s.sent line (lines_of (waiting s1)), rest.1, rest.2)
]

-- The tick sends the lines of all messages that wait, in order, and leaves the ring empty.
pub tick-sent :
    (s : Ipc)
    → IsRing s
    → ((tick s).sent ≡ s.sent ++ lines_of (waiting s)) × (waiting_count (tick s) ≡ 0)
unfolding tick
tick-sent s v = let r = ring_flush-sent 64 s v (omega arith) in (r.0, omega (arith, r.1))
