-- ===== src/Common/Scan.antt =====
-- The loop that most tables of the kernel are searched by:
--   for (i = 0; i < MAX; i++) if (test(&t[i])) { update(&t[i]); return; }
-- It returns the index, the updated entry and the updated table.
use Prim.Native.Nat.{ℕ, suc, ◌+◌, ◌<◌}
use mathlib.Core.Path.{◌≡◌, refl, ap}
use mathlib.Core.Logic.{◌⊎◌, inl, inr}
use mathlib.Core.Bool.{Bool, true, false}
use mathlib.Core.List.{List, [], ◌∷◌, ◌++◌}
use mathlib.Core.Option.{Option, none, some}
use native.Mathlib.Omega.{arith}
use operating_system_sctrach.Common.Tests.{if◌then◌else◌, Bool-cases}
use operating_system_sctrach.Common.Lists.{length}

-- A predicate by recursion computes to tuples, which the tactics read and build.
abbrev pub All {ℓ κ} : {A : Type ℓ} → (A → Type κ) → List A → Type κ
All P [] = Unit
All P (x ∷ xs) = P x × All P xs

pub All-append {ℓ κ} :
    {A : Type ℓ} (P : A → Type κ) (xs ys : List A) → All P xs → All P ys → All P (xs ++ ys)
All-append P [] ys hx hy = hy
All-append P (x ∷ xs) ys hx hy = (hx.0, All-append P xs ys hx.1 hy)

pub All-map {ℓ κ μ} :
    {A : Type ℓ} (P : A → Type κ) (Q : A → Type μ) (xs : List A)
    → ((x : A) → P x → Q x)
    → All P xs
    → All Q xs
All-map P Q [] f h = tt
All-map P Q (x ∷ xs) f h = (f x h.0, All-map P Q xs f h.1)

module _ {ℓ} {A : Type ℓ} where
  pub prepend : A → Option (ℕ × A × List A) → Option (ℕ × A × List A)
  prepend x none = none
  prepend x (some (i, y, ys)) = some (suc i, y, x ∷ ys)

  unfoldable pub update_first : (A → Bool) → (A → A) → List A → Option (ℕ × A × List A)
  unfolding prepend
  update_first p f [] = none
  update_first p f (x ∷ xs) =
      if p x then some (0, f x, f x ∷ xs) else prepend x (update_first p f xs)

  -- How many entries pass the test.
  abbrev pub count : (A → Bool) → List A → ℕ
  count p [] = 0
  count p (x ∷ xs) = (if p x then 1 else 0) + count p xs

  pub count-append : (p : A → Bool) (xs ys : List A) → count p (xs ++ ys) ≡ count p xs + count p ys
  count-append p [] ys = omega arith
  count-append p (x ∷ xs) ys = omega (arith, count-append p xs ys)

  pub count-le-length : (p : A → Bool) (xs : List A) → count p xs ≡ 0 ⊎ 0 < length xs
  count-le-length p [] = inl refl
  count-le-length p (x ∷ xs) = inr (omega arith)

-- What the loop found: the entries before the hit fail the test.
pub record Hit {ℓ} {A : Type ℓ} (p : A → Bool) (f : A → A) (xs : List A) (i : ℕ) (y : A)
    (ys : List A) : Type ℓ where
  pub before : List A
  pub at : A
  pub after : List A
  pub missed : All (λ x. p x ≡ false) before
  pub passes : p at ≡ true
  pub index : i ≡ length before
  pub was : xs ≡ before ++ (at ∷ after)
  pub entry : y ≡ f at
  pub now : ys ≡ before ++ (f at ∷ after)

module _ {ℓ} {A : Type ℓ} (p : A → Bool) (f : A → A) where
  pub update_first_hit :
      (before : List A) (x : A) (after : List A)
      → All (λ x. p x ≡ false) before
      → p x ≡ true
      → update_first p f (before ++ (x ∷ after))
        ≡ some (length before, f x, before ++ (f x ∷ after))
  unfolding update_first
  update_first_hit [] x after h e = rw e
  update_first_hit (b ∷ bs) x after h e = rw (h.0, update_first_hit bs x after h.1 e)

  pub update_first_miss : (xs : List A) → All (λ x. p x ≡ false) xs → update_first p f xs ≡ none
  unfolding update_first
  update_first_miss [] h = refl
  update_first_miss (x ∷ xs) h = rw (h.0, update_first_miss xs h.1)

  -- Either no entry passes, or the loop stopped at the first that does.
  pub update_first_cases :
      (xs : List A)
      → (All (λ x. p x ≡ false) xs × (update_first p f xs ≡ none))
        ⊎ ((i : ℕ) × (y : A) × (ys : List A) × Hit p f xs i y ys
            × (update_first p f xs ≡ some (i, y, ys)))
  unfolding update_first
  update_first_cases [] = inl (tt, refl)
  update_first_cases (x ∷ xs) = elim (Bool-cases (p x)) [
    | inl e ↦ inr (
      0,
      f x,
      f x ∷ xs,
      record {
        before = [];
        at = x;
        after = xs;
        missed = tt;
        passes = e;
        index = refl;
        was = refl;
        entry = refl;
        now = refl;
      },
      rw e,
    )
    | inr e ↦ elim (update_first_cases xs) [
      | inl (h, n) ↦ inl ((e, h), rw (e, n))
      | inr (i, y, ys, h, n) ↦ inr (
        suc i,
        y,
        x ∷ ys,
        record {
          before = x ∷ h.before;
          at = h.at;
          after = h.after;
          missed = (e, h.missed);
          passes = h.passes;
          index = ap suc h.index;
          was = ap (λ l. x ∷ l) h.was;
          entry = h.entry;
          now = ap (λ l. x ∷ l) h.now;
        },
        rw (e, n),
      )
    ]
  ]

-- The table that a loop leaves, and whether it found an entry.
module _ {ℓ} {A : Type ℓ} where
  abbrev pub table_after : List A → Option (ℕ × A × List A) → List A
  table_after xs none = xs
  table_after xs (some (i, y, ys)) = ys

  -- A property of each entry that the update keeps holds of the table afterwards.
  pub All-update_first {κ} :
      (P : A → Type κ) (p : A → Bool) (f : A → A) (xs : List A)
      → ((x : A) → P x → p x ≡ true → P (f x))
      → All P xs
      → All P (table_after xs (update_first p f xs))
  unfolding update_first
  All-update_first P p f [] keep h = tt
  All-update_first P p f (x ∷ xs) keep h = elim (Bool-cases (p x)) [
    | inl e ↦ rw e (keep x h.0 e, h.1)
    | inr e ↦ rw e (step (update_first p f xs) (All-update_first P p f xs keep h.1))
  ]
    where
      step :
          (r : Option (ℕ × A × List A))
          → All P (table_after xs r)
          → All P (table_after (x ∷ xs) (prepend x r))
      step none a = (h.0, a)
      step (some (i, y, ys)) a = (h.0, a)

  pub length-update_first :
      (p : A → Bool) (f : A → A) (xs : List A)
      → length (table_after xs (update_first p f xs)) ≡ length xs
  unfolding update_first
  length-update_first p f [] = refl
  length-update_first p f (x ∷ xs) = elim (Bool-cases (p x)) [
    | inl e ↦ rw e
    | inr e ↦ rw e (step (update_first p f xs) (length-update_first p f xs))
  ]
    where
      step :
          (r : Option (ℕ × A × List A))
          → length (table_after xs r) ≡ length xs
          → length (table_after (x ∷ xs) (prepend x r)) ≡ suc (length xs)
      step none a = refl
      step (some (i, y, ys)) a = ap suc a

-- The loop changes a count by what the update does to the one entry.
pub count-Hit {ℓ} :
    {A : Type ℓ} {p : A → Bool} {f : A → A} {xs ys : List A} {i : ℕ} {y : A} (q : A → Bool)
    → (h : Hit p f xs i y ys)
    → count q ys + (if q h.at then 1 else 0) ≡ count q xs + (if q (f h.at) then 1 else 0)
count-Hit {f = f} q h =
    rw (h.now, h.was)
      (omega (
        arith,
        count-append q h.before (h.at ∷ h.after),
        count-append q h.before (f h.at ∷ h.after),
      ))

module _ {ℓ κ} {A : Type ℓ} (P : A → Type κ) where
  pub All-left : (xs ys : List A) → All P (xs ++ ys) → All P xs
  All-left [] ys h = tt
  All-left (x ∷ xs) ys h = (h.0, All-left xs ys h.1)

  pub All-right : (xs ys : List A) → All P (xs ++ ys) → All P ys
  All-right [] ys h = h
  All-right (x ∷ xs) ys h = All-right xs ys h.1

  pub All-Hit :
      {p : A → Bool} {f : A → A} {xs ys : List A} {i : ℕ} {y : A} (h : Hit p f xs i y ys)
      → P (f h.at)
      → All P xs
      → All P ys
  All-Hit {f = f} {xs = xs} h new all =
      let whole = rw h.was at all in
      rw h.now (
        All-append P h.before (f h.at ∷ h.after) (All-left h.before (h.at ∷ h.after) whole)
          (new, (All-right h.before (h.at ∷ h.after) whole).1))
