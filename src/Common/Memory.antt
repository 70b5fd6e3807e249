-- ===== src/Common/Memory.antt =====
-- Memory as a function from addresses to cells, and writes to it.
use Prim.Native.Nat.{ℕ}
use mathlib.Core.Path.{◌≡◌, refl, sym, subst}
use mathlib.Core.Logic.{◌≢◌, inl, inr}
use native.Mathlib.Omega.{arith}
use operating_system_sctrach.Common.Tests.{◌==◌, if◌then◌else◌, Bool-cases}

module _ {ℓ} {A : Type ℓ} where
  unfoldable pub write : (ℕ → A) → ℕ → A → ℕ → A
  write m p v a = if a == p then v else m a

  pub write_lem : (m : ℕ → A) (p : ℕ) (v : A) (a : ℕ) → write m p v a ≡ (if a == p then v else m a)
  unfolding write
  write_lem m p v a = refl

  pub write_self : (m : ℕ → A) (p : ℕ) (v : A) → write m p v p ≡ v
  unfolding write
  write_self m p v = ground arith

  pub write_ne : (m : ℕ → A) (p : ℕ) (v : A) (a : ℕ) → a ≢ p → write m p v a ≡ m a
  unfolding write
  write_ne m p v a h = ground arith

-- What holds of the written cell and of the others holds of every cell.
module _ {ℓ κ} {A : Type ℓ} (P : ℕ → A → Type κ) where
  pub write-each :
      (m : ℕ → A) (p : ℕ) (v : A) (a : ℕ) → P p v → (a ≢ p → P a (m a)) → P a (write m p v a)
  write-each m p v a new old = elim (Bool-cases (a == p)) [
    | inl e ↦
        let same : a ≡ p = ground arith in
        subst (λ k. P k (write m p v k)) (sym same) (subst (P p) (sym (write_self m p v)) new)
    | inr e ↦
        let ne : a ≢ p = λ k. absurd (ground arith) in
        subst (P a) (sym (write_ne m p v a ne)) (old ne)
  ]
