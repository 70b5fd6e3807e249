-- ===== src/Common/Find.antt =====
-- A loop over a table that stops at the first entry with a property, and hands on a pointer to it:
-- the pointer is the index, beside the entry that it points to.
use Prim.Native.Nat.{ℕ, zero, suc}
use mathlib.Core.Path.{◌≡◌, refl, ap}
use mathlib.Core.Logic.{◌⊎◌, inl, inr}
use mathlib.Core.Bool.{Bool, true, false}
use mathlib.Core.List.{List, [], ◌∷◌, ◌++◌}
use mathlib.Core.Option.{Option, none, some}
use operating_system_sctrach.Common.Tests.{if◌then◌else◌, Bool-cases}
use operating_system_sctrach.Common.Lists.{length, set}
use operating_system_sctrach.Common.Scan.{All}

module _ {ℓ} {A : Type ℓ} where
  unfoldable pub skip : Option (ℕ × A) → Option (ℕ × A)
  skip none = none
  skip (some (i, x)) = some (suc i, x)

  unfoldable pub find_first : (A → Bool) → List A → Option (ℕ × A)
  unfolding skip
  find_first p [] = none
  find_first p (x ∷ xs) = if p x then some (0, x) else skip (find_first p xs)

  pub set-append :
      (xs : List A) (x y : A) (ys : List A) → set (xs ++ (x ∷ ys)) (length xs) y ≡ xs ++ (y ∷ ys)
  set-append [] x y ys = refl
  set-append (a ∷ xs) x y ys = ap (λ l. a ∷ l) (set-append xs x y ys)

-- `x`, at index `i`, is the first entry of `xs` that passes the test.
pub record Found {ℓ} {A : Type ℓ} (p : A → Bool) (xs : List A) (i : ℕ) (x : A) : Type ℓ where
  pub before : List A
  pub after : List A
  pub missed : All (λ a. p a ≡ false) before
  pub passes : p x ≡ true
  pub index : i ≡ length before
  pub was : xs ≡ before ++ (x ∷ after)

module _ {ℓ} {A : Type ℓ} (p : A → Bool) where
  pub find_first_hit :
      (before : List A) (x : A) (after : List A)
      → All (λ a. p a ≡ false) before
      → p x ≡ true
      → find_first p (before ++ (x ∷ after)) ≡ some (length before, x)
  unfolding find_first
  find_first_hit [] x after h e = rw e
  find_first_hit (b ∷ bs) x after h e = rw (h.0, find_first_hit bs x after h.1 e)

  pub find_first_miss : (xs : List A) → All (λ a. p a ≡ false) xs → find_first p xs ≡ none
  unfolding find_first
  find_first_miss [] h = refl
  find_first_miss (x ∷ xs) h = rw (h.0, find_first_miss xs h.1)

  pub find_first_cases :
      (xs : List A)
      → (All (λ a. p a ≡ false) xs × (find_first p xs ≡ none))
        ⊎ ((i : ℕ) × (x : A) × Found p xs i x × (find_first p xs ≡ some (i, x)))
  unfolding find_first
  find_first_cases [] = inl (tt, refl)
  find_first_cases (x ∷ xs) = elim (Bool-cases (p x)) [
    | inl e ↦ inr (
      0,
      x,
      record { before = []; after = xs; missed = tt; passes = e; index = refl; was = refl },
      rw e,
    )
    | inr e ↦ elim (find_first_cases xs) [
      | inl (h, n) ↦ inl ((e, h), rw (e, n))
      | inr (i, y, h, n) ↦ inr (
        suc i,
        y,
        record {
          before = x ∷ h.before;
          after = h.after;
          missed = (e, h.missed);
          passes = h.passes;
          index = ap suc h.index;
          was = ap (λ l. x ∷ l) h.was;
        },
        rw (e, n),
      )
    ]
  ]

  pub Found-eq : {xs : List A} {i : ℕ} {x : A} → Found p xs i x → find_first p xs ≡ some (i, x)
  Found-eq {x = x} h = rw (h.was, h.index) (find_first_hit h.before x h.after h.missed h.passes)

  -- A write through the pointer that keeps the property leaves the entry the first with it.
  pub set-Found :
      {xs : List A} {i : ℕ} {x : A} (y : A) → Found p xs i x → p y ≡ true → Found p (set xs i y) i y
  set-Found {x = x} y h e = record {
    before = h.before;
    after = h.after;
    missed = h.missed;
    passes = e;
    index = h.index;
    was = rw (h.was, h.index) (set-append h.before x y h.after);
  }

pub All-set {ℓ κ} :
    {A : Type ℓ} (P : A → Type κ) (xs : List A) (i : ℕ) (y : A)
    → P y
    → All P xs
    → All P (set xs i y)
All-set P [] i y new h = tt
All-set P (x ∷ xs) zero y new h = (new, h.1)
All-set P (x ∷ xs) (suc i) y new h = (h.0, All-set P xs i y new h.1)

-- The entry that was found has every property that all entries have.
pub All-Found {ℓ κ} :
    {A : Type ℓ} (P : A → Type κ) {p : A → Bool} {xs : List A} {i : ℕ} {x : A}
    → Found p xs i x
    → All P xs
    → P x
All-Found {A} P {x = x} h all = at h.before (rw h.was at all)
  where
    at : (before : List A) → All P (before ++ (x ∷ h.after)) → P x
    at [] a = a.0
    at (b ∷ bs) a = at bs a.1
