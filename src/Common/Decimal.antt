-- ===== src/Common/Decimal.antt =====
-- The decimal digits of a number as ASCII bytes.
use Prim.Native.Nat.{ℕ, zero, suc, ◌+◌, ◌-◌, ◌*◌, ◌/◌, ◌%◌, ◌≤◌, ◌<◌}
use mathlib.Core.Path.{◌≡◌, refl, ap, ◌∙◌}
use mathlib.Core.List.{List, [], ◌∷◌, ◌++◌}
use mathlib.Core.Bool.{Bool, true, ◌&&◌}
use mathlib.Core.Option.{Option, none, some}
use native.Mathlib.Omega.{arith}
use operating_system_sctrach.Common.Lists.{length, length-append}
use operating_system_sctrach.Common.Scan.{All, All-append}
use operating_system_sctrach.Common.Tests.{◌==◌, leb, if◌then◌else◌, Bool-cases}
use mathlib.Core.Logic.{inl, inr}

-- The digits of a number, the lowest first, none for 0; `n` bounds how many there are.
unfoldable pub low_digits : ℕ → ℕ → List ℕ
low_digits zero v = []
low_digits (suc n) v =
    let rest = low_digits n (v / 10) in if v == 0 then [] else (48 + v % 10) ∷ rest

abbrev pub reverse {ℓ} : {A : Type ℓ} → List A → List A
reverse [] = []
reverse (x ∷ xs) = reverse xs ++ (x ∷ [])

-- The number as it is printed.
unfoldable pub decimal : ℕ → ℕ → List ℕ
decimal n v = if v == 0 then 48 ∷ [] else reverse (low_digits n v)

-- The number that decimal digits stand for, after those that gave `acc`.
unfoldable parse : ℕ → List ℕ → ℕ
parse acc [] = acc
parse acc (c ∷ cs) = parse (acc * 10 + (c - 48)) cs

parse-append : (acc : ℕ) (xs ys : List ℕ) → parse acc (xs ++ ys) ≡ parse (parse acc xs) ys
unfolding parse
parse-append acc [] ys = refl
parse-append acc (x ∷ xs) ys = parse-append (acc * 10 + (x - 48)) xs ys

-- The first number that has more than `n` digits.
abbrev pub digit_bound : ℕ → ℕ
digit_bound zero = 1
digit_bound (suc n) = 10 * digit_bound n

parse-reverse-low_digits : (n v : ℕ) → v < digit_bound n → parse 0 (reverse (low_digits n v)) ≡ v
unfolding low_digits parse
parse-reverse-low_digits zero v h = omega arith
parse-reverse-low_digits (suc n) v h =
    let rest = parse-reverse-low_digits n (v / 10) (omega arith) in
    let last = parse-append 0 (reverse (low_digits n (v / 10))) ((48 + v % 10) ∷ []) in
    elim (Bool-cases (v == 0)) [ inl e ↦ ground arith | inr e ↦ ground arith ]

parse-decimal : (n v : ℕ) → v < digit_bound n → parse 0 (decimal n v) ≡ v
unfolding parse decimal
parse-decimal n v h = let rest = parse-reverse-low_digits n v h in ground arith

-- The ten digits of ASCII.
abbrev pub is_digit : ℕ → Bool
is_digit c = leb 48 c && leb c 57

-- A number in decimal: one digit or more, and nothing else.
unfoldable pub read_digits : ℕ → List ℕ → Option ℕ
read_digits acc [] = some acc
read_digits acc (c ∷ cs) =
    let rest = read_digits (acc * 10 + (c - 48)) cs in if is_digit c then rest else none

unfoldable pub read_decimal : List ℕ → Option ℕ
unfolding read_digits
read_decimal [] = none
read_decimal (c ∷ cs) = read_digits 0 (c ∷ cs)

abbrev pub AreDigits : List ℕ → Type 0
AreDigits = All (λ c. is_digit c ≡ true)

read_digits-parse :
    (acc : ℕ) (cs : List ℕ) → AreDigits cs → read_digits acc cs ≡ some (parse acc cs)
unfolding read_digits parse
read_digits-parse acc [] h = refl
read_digits-parse acc (c ∷ cs) h =
    rw (read_digits, h.0) (read_digits-parse (acc * 10 + (c - 48)) cs h.1)

low_digits-AreDigits : (n v : ℕ) → AreDigits (reverse (low_digits n v))
unfolding low_digits
low_digits-AreDigits zero v = tt
low_digits-AreDigits (suc n) v =
    let rest = low_digits-AreDigits n (v / 10) in
    elim (Bool-cases (v == 0)) [
      | inl e ↦ rw (low_digits, e) tt
      | inr e ↦
          rw (low_digits, e)
            (All-append (λ c. is_digit c ≡ true) (reverse (low_digits n (v / 10)))
              ((48 + v % 10) ∷ []) rest (ground arith, tt))
    ]

pub decimal-AreDigits : (n v : ℕ) → AreDigits (decimal n v)
unfolding decimal
decimal-AreDigits n v = elim (Bool-cases (v == 0)) [
  | inl e ↦ rw e (refl, tt)
  | inr e ↦ rw e (low_digits-AreDigits n v)
]

-- A text that ends in a digit is not empty.
read_decimal-append :
    (cs : List ℕ) (c : ℕ) → read_decimal (cs ++ (c ∷ [])) ≡ read_digits 0 (cs ++ (c ∷ []))
unfolding read_decimal
read_decimal-append [] c = refl
read_decimal-append (d ∷ ds) c = refl

read_decimal-digits :
    (n v : ℕ) → read_decimal (decimal (suc n) v) ≡ read_digits 0 (decimal (suc n) v)
unfolding decimal low_digits
read_decimal-digits n v = elim (Bool-cases (v == 0)) [
  | inl e ↦ rw e (read_decimal-append [] 48)
  | inr e ↦ rw e (read_decimal-append (reverse (low_digits n (v / 10))) (48 + v % 10))
]

pub read_decimal-decimal :
    (n v : ℕ) → v < digit_bound (suc n) → read_decimal (decimal (suc n) v) ≡ some v
read_decimal-decimal n v h =
    read_decimal-digits n v
    ∙ read_digits-parse 0 (decimal (suc n) v) (decimal-AreDigits (suc n) v)
    ∙ ap some (parse-decimal (suc n) v h)

pub length-low_digits : (n v : ℕ) → length (low_digits n v) ≤ n
unfolding low_digits
length-low_digits zero v = omega arith
length-low_digits (suc n) v = let rest = length-low_digits n (v / 10) in ground arith

pub length-reverse {ℓ} : {A : Type ℓ} (xs : List A) → length (reverse xs) ≡ length xs
length-reverse [] = refl
length-reverse (x ∷ xs) = omega (arith, length-append (reverse xs) (x ∷ []), length-reverse xs)

pub length-decimal : (n v : ℕ) → length (decimal n v) ≤ n + 1
unfolding decimal
length-decimal n v =
    let a = length-low_digits n v in let b = length-reverse (low_digits n v) in ground arith

-- Zero has one digit.
pub length-decimal-suc : (n v : ℕ) → length (decimal (suc n) v) ≤ suc n
unfolding decimal
length-decimal-suc n v =
    let a = length-low_digits (suc n) v in
    let b = length-reverse (low_digits (suc n) v) in ground arith
