-- ===== src/Common/Count.antt =====
-- How many entries of a table pass a test, after an update of one entry or of all.
use Prim.Native.Nat.{ℕ, zero, suc, ◌+◌, ◌≤◌}
use mathlib.Core.Path.{◌≡◌, refl, subst}
use mathlib.Core.Logic.{inl, inr}
use mathlib.Core.Bool.{Bool, true, false}
use mathlib.Core.List.{List, [], ◌∷◌, map}
use native.Mathlib.Omega.{arith}
use operating_system_sctrach.Common.Tests.{if◌then◌else◌, Bool-cases}
use operating_system_sctrach.Common.Lists.{modify}
use operating_system_sctrach.Common.Scan.{count, Hit, count-Hit}

-- Counting after an update of one entry, or of all.
module _ {ℓ} {A : Type ℓ} (q : A → Bool) where
  pub count-modify_same :
      (xs : List A) (i : ℕ) (f : A → A)
      → ((x : A) → q (f x) ≡ q x)
      → count q (modify xs i f) ≡ count q xs
  count-modify_same [] i f h = refl
  count-modify_same (x ∷ xs) zero f h = rw (h x) refl
  count-modify_same (x ∷ xs) (suc i) f h = omega (arith, count-modify_same xs i f h)

  pub count-modify_le :
      (xs : List A) (i : ℕ) (f : A → A)
      → ((x : A) → q (f x) ≡ true → q x ≡ true)
      → count q (modify xs i f) ≤ count q xs
  count-modify_le [] i f h = omega arith
  count-modify_le (x ∷ xs) zero f h = elim (Bool-cases (q (f x))) [
    | inl e ↦ rw (e, h x e) (omega arith)
    | inr e ↦ rw e (omega arith)
  ]
  count-modify_le (x ∷ xs) (suc i) f h = omega (arith, count-modify_le xs i f h)

  pub count-modify-suc :
      (xs : List A) (i : ℕ) (f : A → A) → count q (modify xs i f) ≤ suc (count q xs)
  count-modify-suc [] i f = omega arith
  count-modify-suc (x ∷ xs) zero f = ground arith
  count-modify-suc (x ∷ xs) (suc i) f = omega (arith, count-modify-suc xs i f)

  pub count-map_same :
      (xs : List A) (f : A → A) → ((x : A) → q (f x) ≡ q x) → count q (map f xs) ≡ count q xs
  count-map_same [] f h = refl
  count-map_same (x ∷ xs) f h = rw (h x) (omega (arith, count-map_same xs f h))

  pub count-map_none :
      (xs : List A) (f : A → A) → ((x : A) → q (f x) ≡ false) → count q (map f xs) ≡ 0
  count-map_none [] f h = refl
  count-map_none (x ∷ xs) f h = rw (h x) (omega (arith, count-map_none xs f h))

module _ {ℓ} {A : Type ℓ} (q : A → Bool) where
  pub count-Hit_more :
      {p : A → Bool} {f : A → A} {xs ys : List A} {i : ℕ} {y : A} (h : Hit p f xs i y ys)
      → q h.at ≡ false
      → q (f h.at) ≡ true
      → count q ys ≡ count q xs + 1
  count-Hit_more {f = f} {xs = xs} {ys = ys} h old new =
      let e : count q ys + 0 ≡ count q xs + 1 =
        subst (λ b. count q ys + (if b then 1 else 0) ≡ count q xs + 1) old
          (subst (λ b. count q ys + (if q h.at then 1 else 0) ≡ count q xs + (if b then 1 else 0))
            new (count-Hit q h)) in
      omega (arith, e)

  pub count-Hit_less :
      {p : A → Bool} {f : A → A} {xs ys : List A} {i : ℕ} {y : A} (h : Hit p f xs i y ys)
      → q h.at ≡ true
      → q (f h.at) ≡ false
      → count q ys + 1 ≡ count q xs
  count-Hit_less {f = f} {xs = xs} {ys = ys} h old new =
      let e : count q ys + 1 ≡ count q xs + 0 =
        subst (λ b. count q ys + (if b then 1 else 0) ≡ count q xs + 0) old
          (subst (λ b. count q ys + (if q h.at then 1 else 0) ≡ count q xs + (if b then 1 else 0))
            new (count-Hit q h)) in
      omega (arith, e)

  -- An update that does not newly pass the test.
  pub count-Hit_le :
      {p : A → Bool} {f : A → A} {xs ys : List A} {i : ℕ} {y : A} (h : Hit p f xs i y ys)
      → q (f h.at) ≡ false
      → count q ys ≤ count q xs
  count-Hit_le {f = f} {xs = xs} {ys = ys} h new =
      let e : count q ys + (if q h.at then 1 else 0) ≡ count q xs + 0 =
        subst (λ b. count q ys + (if q h.at then 1 else 0) ≡ count q xs + (if b then 1 else 0)) new
          (count-Hit q h) in
      omega (arith, e)
