-- ===== src/Apps/Terminal/Lines.antt =====
-- What the terminal of kernel/apps/terminal_app.c keeps on its screen and in its input.
use operating_system_sctrach.Common.{
  ℕ, zero, suc, ◌-◌, ◌≤◌, ◌<◌, ◌≡◌, ◌≢◌, refl, sym, ap, ◌∙◌, ◌⊎◌, inl, inr, List, [], ◌∷◌, ◌++◌,
  Option, some, Bool, true, false, ◌||◌, ◌&&◌, ltb, leb, ◌==◌, if◌then◌else◌, length, length-append,
  length-take, length-drop, drop, codes, copy_text, same_text, All, All-append, arith, Bool-cases,
  lt→ltb, ltb→lt,
}
use operating_system_sctrach.Apps.Terminal.{
  Terminal, Counters, execute_command, answer, in_array, unknown_text, term_add_line, add_lines,
  prompt, add_text, after, is_command, help_lines, uname_lines, dir_lines, ps_lines,
  on_terminal_key, max_input, without_last, cleared,
}

-- What the arrays of the terminal have room for.
pub record IsTerminal (t : Terminal) : Type 0 where
  pub few : length t.lines ≤ 18
  pub short : All (λ l. length l ≤ 71) t.lines
  pub room : length t.input ≤ 62

length-copy_text : (n : ℕ) (cs : List ℕ) → length (copy_text n cs) ≤ n
unfolding copy_text
length-copy_text zero cs = omega arith
length-copy_text (suc n) [] = omega arith
length-copy_text (suc n) (c ∷ cs) = ground (arith, length-copy_text n cs)

All-drop : (P : List ℕ → Type 0) (n : ℕ) (xs : List (List ℕ)) → All P xs → All P (drop n xs)
All-drop P zero xs h = h
All-drop P (suc n) [] h = tt
All-drop P (suc n) (x ∷ xs) h = All-drop P n xs h.1

pub term_add_line-IsTerminal :
    (t : Terminal) (str : List ℕ) → IsTerminal t → IsTerminal (term_add_line t str)
unfolding term_add_line
term_add_line-IsTerminal t str v =
    let line = copy_text 71 str in
    let P : List ℕ → Type 0 = λ l. length l ≤ 71 in
    let own = length-copy_text 71 str in
    elim (Bool-cases (ltb (length t.lines) 18)) [
      | inl e ↦
          rw (term_add_line, e)
            (record {
              few = omega (
                arith,
                length-append t.lines (line ∷ []),
                (let b : length t.lines < 18 = ground arith in b),
              );
              short = All-append P t.lines (line ∷ []) v.short (own, tt);
              room = v.room;
            })
      | inr e ↦
          rw (term_add_line, e)
            (record {
              few =
                  omega (
                    arith,
                    length-append (drop 1 t.lines) (line ∷ []),
                    length-drop 1 t.lines,
                    v.few,
                  );
              short =
                  All-append P (drop 1 t.lines) (line ∷ []) (All-drop P 1 t.lines v.short)
                    (own, tt);
              room = v.room;
            })
    ]

add_lines-IsTerminal :
    (ls : List (List ℕ)) (t : Terminal) → IsTerminal t → IsTerminal (add_lines t ls)
unfolding add_lines
add_lines-IsTerminal [] t v = v
add_lines-IsTerminal (l ∷ ls) t v =
    add_lines-IsTerminal ls (term_add_line t l) (term_add_line-IsTerminal t l v)

-- The code gets to its end, and the arrays still have room.
abbrev pub Returns : Option Terminal → Type 0
Returns o = (t : Terminal) × (o ≡ some t) × IsTerminal t

if-Returns :
    (b : Bool) (x y : Option Terminal)
    → (b ≡ true → Returns x)
    → (b ≡ false → Returns y)
    → Returns (if b then x else y)
if-Returns true x y hx hy = hx refl
if-Returns false x y hx hy = hy refl

same_text-eq : (xs ys : List ℕ) → same_text xs ys ≡ true → xs ≡ ys
unfolding same_text
same_text-eq [] [] e = refl
same_text-eq [] (y ∷ ys) e = absurd cc
same_text-eq (x ∷ xs) [] e = absurd cc
same_text-eq (x ∷ xs) (y ∷ ys) e = ground (arith, same_text-eq xs ys)

add_all-Returns :
    (t : Terminal) (ls : List (List ℕ)) → IsTerminal t → Returns (some (add_lines t ls))
add_all-Returns t ls v = (add_lines t ls, refl, add_lines-IsTerminal ls t v)

-- The two commands that overrun an array.
abbrev pub IsPlain : List ℕ → Type 0
IsPlain cmd = (length cmd ≤ 19) × (cmd ≢ codes "firewall") × (cmd ≢ codes "sessions")

unknown_text-Returns :
    (t : Terminal) (cmd : List ℕ)
    → length cmd ≤ 19
    → IsTerminal t
    → Returns (add_text t (unknown_text cmd))
unfolding unknown_text in_array
unknown_text-Returns t cmd h v =
    let text = codes "Command not found: '" ++ (cmd ++ codes "'. Type 'help' for command list.") in
    let fits : ltb (length text) 72 ≡ true =
      ground (arith, length-append cmd (codes "'. Type 'help' for command list.")) in
    rw fits (term_add_line t text, refl, term_add_line-IsTerminal t text v)

answer-Returns :
    (c : Counters) (t : Terminal) (cmd : List ℕ)
    → IsPlain cmd
    → IsTerminal t
    → Returns (answer c t cmd)
unfolding answer
answer-Returns c t cmd p v =
    if-Returns (same_text cmd (codes "help")) _ _ (λ _. add_all-Returns t help_lines v)
      (λ _.
        if-Returns (is_command (codes "uname") (codes "uname -a") cmd) _ _
          (λ _. add_all-Returns t uname_lines v)
          (λ _.
            if-Returns (is_command (codes "ls") (codes "dir") cmd) _ _
              (λ _. add_all-Returns t dir_lines v)
              (λ _.
                if-Returns (is_command (codes "ps") (codes "top") cmd) _ _
                  (λ _. add_all-Returns t ps_lines v)
                  (λ _.
                    if-Returns (is_command (codes "firewall") (codes "firewall-cmd --status") cmd) _
                      _ (λ e. absurd (not_firewall e))
                      (λ _.
                        if-Returns (same_text cmd (codes "sessions")) _ _
                          (λ e. absurd (p.2 (same_text-eq cmd (codes "sessions") e)))
                          (λ _.
                            if-Returns (is_command (codes "clear") (codes "cls") cmd) _ _
                              (λ _. (
                                record t { lines = [] },
                                refl,
                                record { few = omega arith; short = tt; room = v.room },
                              ))
                              (λ _.
                                if-Returns (ltb 0 (length cmd)) _ _
                                  (λ _. unknown_text-Returns t cmd p.0 v) (λ _. (t, refl, v)))))))))
  where
    too_long : same_text cmd (codes "firewall-cmd --status") ≡ true → ⊥
    too_long e =
        let same = ap length (same_text-eq cmd (codes "firewall-cmd --status") e) in
        omega (arith, same, p.0)

    not_firewall : is_command (codes "firewall") (codes "firewall-cmd --status") cmd ≡ true → ⊥
    not_firewall e = elim (Bool-cases (same_text cmd (codes "firewall"))) [
      | inl k ↦ p.1 (same_text-eq cmd (codes "firewall") k)
      | inr k ↦ too_long (sym (ap (λ b. b || same_text cmd (codes "firewall-cmd --status")) k) ∙ e)
    ]

execute_command-Returns :
    (c : Counters) (t : Terminal) (cmd : List ℕ)
    → IsPlain cmd
    → IsTerminal t
    → Returns (execute_command c t cmd)
unfolding execute_command in_array
execute_command-Returns c t cmd p v =
    let echo = prompt ++ cmd in
    let fits : ltb (length echo) 72 ≡ true = lt→ltb (length echo) 72 (omega (arith, p.0)) in
    rw fits (answer-Returns c (term_add_line t echo) cmd p (term_add_line-IsTerminal t echo v))

-- A key is handled to its end and leaves the terminal's arrays within their bounds, if they were before: at
-- most 18 lines of at most 71 bytes each, and at most 62 bytes of input. Where the key is Enter, the
-- command that stands in the input has at most 19 bytes and is neither `firewall` nor `sessions`.
pub on_terminal_key-Returns :
    (c : Counters) (t : Terminal) (ascii : ℕ)
    → ((ascii ≡ 10) ⊎ (ascii ≡ 13) → IsPlain t.input)
    → IsTerminal t
    → Returns (on_terminal_key c t ascii)
unfolding on_terminal_key
on_terminal_key-Returns c t ascii plain v =
    if-Returns ((ascii == 10) || (ascii == 13)) _ _
      (λ e. enter (execute_command-Returns c t t.input (plain (ground arith)) v))
      (λ _.
        if-Returns (ascii == 8) _ _
          (λ _. (
            record t { input = without_last t.input },
            refl,
            record {
              few = v.few;
              short = v.short;
              room = omega (arith, length-take (length t.input - 1) t.input, v.room);
            },
          ))
          (λ _.
            if-Returns (leb 32 ascii && leb ascii 126) _ _ (λ _. (typed, refl, typed-IsTerminal))
              (λ _. (t, refl, v))))
  where
    typed : Terminal
    typed =
        if ltb (length t.input) max_input then record t { input = t.input ++ (ascii ∷ []) } else t

    typed-IsTerminal : IsTerminal typed
    typed-IsTerminal = elim (Bool-cases (ltb (length t.input) 62)) [
      | inl e ↦ rw e (record {
        few = v.few;
        short = v.short;
        room = omega (arith, length-append t.input (ascii ∷ []), ltb→lt (length t.input) 62 e);
      })
      | inr e ↦ rw e v
    ]

    enter : {o : Option Terminal} → Returns o → Returns (after o (λ t'. some (cleared t')))
    enter {o} (t', e, w) = (
      cleared t',
      ap (λ r. after r (λ u. some (cleared u))) e,
      record { few = w.few; short = w.short; room = omega arith },
    )
