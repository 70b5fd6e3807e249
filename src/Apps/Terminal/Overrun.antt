-- ===== src/Apps/Terminal/Overrun.antt =====
-- Commands of kernel/apps/terminal_app.c whose text does not fit into its array.
use operating_system_sctrach.Common.{
  ℕ, zero, suc, ◌+◌, ◌/◌, ◌%◌, ◌≤◌, ◌<◌, ◌≡◌, ◌≢◌, sym, ap, ◌∙◌, inl, inr, List, [], ◌∷◌, ◌++◌,
  Option, none, some, ltb, ◌==◌, length, length-append, codes, arith, Bool-cases, same_text,
  Option-cases,
}
use operating_system_sctrach.Common.Decimal.{decimal, low_digits, reverse}
use operating_system_sctrach.Apps.Terminal.{
  Terminal, Counters, execute_command, answer, in_array, firewall_text, sessions_text, with_number,
  term_add_line, prompt, max_line_len, add_text, after,
}

pub decimal-length : (n v : ℕ) → 0 < n → 0 < length (decimal n v)
unfolding decimal low_digits
decimal-length zero v h = absurd (omega arith)
decimal-length (suc n) v h = elim (Bool-cases (v == 0)) [
  | inl e ↦ rw (decimal, e) (omega arith)
  | inr e ↦
      rw (decimal, e)
        (omega (arith, length-append {0} (reverse (low_digits n (v / 10))) ((48 + v % 10) ∷ [])))
]

in_array-long : (n : ℕ) (text : List ℕ) → n ≤ length text → in_array n text ≡ none
unfolding in_array
in_array-long n text h = ground arith

in_array-length : (n : ℕ) (text r : List ℕ) → in_array n text ≡ some r → (r ≡ text) × (length r < n)
unfolding in_array
in_array-length n text r e = elim (Bool-cases (ltb (length text) n)) [
  | inl k ↦ let same : r ≡ text = ground arith in (same, rw same (ground arith))
  | inr k ↦ absurd (ground arith)
]

abbrev append_digits : List ℕ → List ℕ → Option (List ℕ) → Option (List ℕ)
append_digits text label none = none
append_digits text label (some digits) = in_array 64 (text ++ (label ++ digits))

none-some : {r : List ℕ} → none ≢ some r
none-some k = absurd cc

-- A number that is written takes at least one byte.
with_number-length :
    (text label r : List ℕ) (n : ℕ)
    → with_number (some text) label n ≡ some r
    → (length text + length label + 1 ≤ length r) × (length r < 64)
with_number-length text label r n e = elim (Option-cases (in_array 16 (decimal 20 n))) [
  | inl k ↦ absurd (none-some (sym (ap (append_digits text label) k) ∙ e))
  | inr (digits, k) ↦
      let d = in_array-length 16 (decimal 20 n) digits k in
      let whole =
        in_array-length 64 (text ++ (label ++ digits)) r
          (sym (ap (append_digits text label) k) ∙ e) in
      let long : length text + length label + 1 ≤ length r = omega (
        arith,
        ap length whole.0,
        ap length d.0,
        decimal-length 20 n (omega arith),
        length-append text (label ++ digits),
        length-append label digits,
      ) in
      (long, whole.1)
]

-- A text whose labels leave no room for two digits has no room for two numbers.
with_number-long :
    (n m : ℕ) (first second : List ℕ)
    → 62 ≤ length first + length second
    → with_number (with_number (some []) first n) second m ≡ none
with_number-long n m first second h = elim (Option-cases (with_number (some []) first n)) [
  | inl k ↦ ap (λ o. with_number o second m) k
  | inr (text, k) ↦
      ap (λ o. with_number o second m) k
      ∙ full text (omega (arith, (with_number-length [] first text n k).0))
]
  where
    full :
        (text : List ℕ) → length first + 1 ≤ length text → with_number (some text) second m ≡ none
    full text long = elim (Option-cases (with_number (some text) second m)) [
      | inl e ↦ e
      | inr (r, e) ↦
          let grown = with_number-length text second r m e in
          absurd (omega (arith, grown.0, grown.1))
    ]

-- The commands that overrun an array: those of the firewall and of the sessions, and all that are too long
-- for the echo.
pub data Overruns : List ℕ → Type 0 where
  firewall : Overruns (codes "firewall")
  sessions : Overruns (codes "sessions")
  long : (cmd : List ℕ) → 51 ≤ length cmd → Overruns cmd

firewall_text-none : (c : Counters) → firewall_text c ≡ none
unfolding firewall_text
firewall_text-none c =
    with_number-long c.stats.total_inspected c.stats.total_blocked
      (codes "Firewall: Running (Stealth Mode: Active) | Inspected: ") (codes " | Dropped: ")
      (omega arith)

sessions_text-none : (c : Counters) → sessions_text c ≡ none
unfolding sessions_text
sessions_text-none c =
    with_number-long c.active_sessions c.blocked_hijacks
      (codes "Anti-Hijack Guard: Active Sessions = ") (codes " | Intercepted Hijacks = ")
      (omega arith)

-- The commands `firewall` and `sessions` overrun the local array of 64 bytes whatever the counters are,
-- and a command of 51 bytes or more overruns the array of the echo.
pub execute_command-Overruns :
    (c : Counters) (t : Terminal) (cmd : List ℕ) → Overruns cmd → execute_command c t cmd ≡ none
unfolding execute_command answer same_text in_array
execute_command-Overruns c t cmd firewall =
    ap (add_text (term_add_line t (prompt ++ codes "firewall"))) (firewall_text-none c)
execute_command-Overruns c t cmd sessions =
    ap (add_text (term_add_line t (prompt ++ codes "sessions"))) (sessions_text-none c)
execute_command-Overruns c t cmd (long _ h) =
    ap (λ o. after o (λ echo. answer c (term_add_line t echo) cmd))
      (in_array-long max_line_len (prompt ++ cmd) (omega arith))
