-- ===== src/Strings/Numbers.antt =====
-- The numbers that kernel/kstring.c prints.
use operating_system_sctrach.Common.{
  ℕ, zero, suc, ◌+◌, ◌≤◌, ◌<◌, ◌^◌, ◌≡◌, refl, ap, ◌∙◌, List, [], ◌∷◌, length, ◌==◌, arith, true,
  false, some,
}
use operating_system_sctrach.Common.Memory.{write, write_ne, write_self}
use operating_system_sctrach.Common.Ring.{span, span-write}
use operating_system_sctrach.Common.Decimal.{
  decimal, length-decimal-suc, AreDigits, decimal-AreDigits, read_decimal, read_decimal-decimal,
}
use operating_system_sctrach.Strings.{uint_to_str, write_bytes, strlen, count_bytes}

write_bytes-before : (m : ℕ → ℕ) (p : ℕ) (cs : List ℕ) (a : ℕ) → a < p → write_bytes m p cs a ≡ m a
unfolding write_bytes
write_bytes-before m p [] a h = refl
write_bytes-before m p (c ∷ cs) a h =
    write_bytes-before (write m p c) (p + 1) cs a (omega arith)
    ∙ write_ne m p c a (λ e. omega arith)

span-write_bytes : (m : ℕ → ℕ) (p : ℕ) (cs : List ℕ) → span (write_bytes m p cs) p (length cs) ≡ cs
unfolding write_bytes span
span-write_bytes m p [] = refl
span-write_bytes m p (c ∷ cs) =
    rw
      (
        write_bytes-before (write m p c) (p + 1) cs p (omega arith),
        write_self m p c,
        span-write_bytes (write m p c) (p + 1) cs,
      )
      refl

cons_head : {a b : ℕ} {xs ys : List ℕ} → a ∷ xs ≡ b ∷ ys → a ≡ b
cons_head e = cc

cons_tail : {a b : ℕ} {xs ys : List ℕ} → a ∷ xs ≡ b ∷ ys → xs ≡ ys
cons_tail e = cc

-- The terminator of a text without zeros is found behind its last byte.
count_bytes-text :
    (m : ℕ → ℕ) (p : ℕ) (cs : List ℕ) (fuel : ℕ)
    → AreDigits cs
    → span m p (length cs) ≡ cs
    → m (p + length cs) ≡ 0
    → length cs < fuel
    → count_bytes fuel m p ≡ length cs
unfolding count_bytes span
count_bytes-text m p cs zero d s e h = absurd (omega arith)
count_bytes-text m p [] (suc fuel) d s e h =
    let at : p + 0 ≡ p = omega arith in
    let ended : (m p == 0) ≡ true = ground (arith, ap m at, e) in rw (count_bytes, ended) refl
count_bytes-text m p (c ∷ cs) (suc fuel) d s e h =
    let here : m p ≡ c = cons_head s in
    let more : (m p == 0) ≡ false = ground (arith, d.0, here) in
    let moved : p + 1 + length cs ≡ p + suc (length cs) = omega arith in
    let rest =
      count_bytes-text m (p + 1) cs fuel d.1 (cons_tail s) (ap m moved ∙ e) (omega arith) in
    rw (count_bytes, more, rest) (omega arith)

-- `uint_to_str` writes a number as a text that `strlen` measures, of at most 20 bytes, and that reads back
-- in decimal as the number: it has one digit or more and nothing else, for every 64-bit number and every buffer that is not NULL.
pub uint_to_str-read_decimal :
    (m : ℕ → ℕ) (val buf : ℕ)
    → val < 2 ^ 64
    → 1 ≤ buf
    → let m' = uint_to_str m val buf in
      let n = strlen 21 m' buf in (read_decimal (span m' buf n) ≡ some val) × (n ≤ 20)
unfolding uint_to_str strlen
uint_to_str-read_decimal m val buf h nonnull =
    let text = decimal 20 val in
    let m1 = write_bytes m buf text in
    let same =
      span-write m1 (buf + length text) 0 buf (length text) (omega arith)
      ∙ span-write_bytes m buf text in
    let ended = write_self m1 (buf + length text) 0 in
    let short = length-decimal-suc 19 val in
    let set : (buf == 0) ≡ false = ground arith in
    let m2 = write m1 (buf + length text) 0 in
    let counted =
      count_bytes-text m2 buf text 21 (decimal-AreDigits 20 val) same ended
        (omega (arith, short)) in
    rw (set, counted, same) (read_decimal-decimal 19 val (omega arith), short)
