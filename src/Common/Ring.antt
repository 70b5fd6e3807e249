-- ===== src/Common/Ring.antt =====
-- Reading a run of cells of memory, straight and around a ring of slots.
use Prim.Native.Nat.{ℕ, zero, suc, ◌+◌, ◌-◌, ◌%◌, ◌≤◌, ◌<◌}
use mathlib.Core.Path.{◌≡◌, refl, sym, ap, subst, ◌∙◌}
use mathlib.Core.List.{List, [], ◌∷◌, ◌++◌}
use native.Mathlib.Omega.{arith}
use native.Mathlib.Nat.{mod-add-mod, mod-lt, mod-eq_of_lt, mod-eq-sub-mod}
use mathlib.Core.Logic.{◌≢◌, inl, inr}
use operating_system_sctrach.Common.Tests.{ltb, Bool-cases}
use operating_system_sctrach.Common.Memory.{write, write_ne, write_self}

module _ {ℓ} {A : Type ℓ} where
  -- The `k` cells from cell `i` on.
  unfoldable pub span : (ℕ → A) → ℕ → ℕ → List A
  span m i zero = []
  span m i (suc k) = m i ∷ span m (i + 1) k

  -- The `k` slots from slot `i` on, around the ring of `n`.
  unfoldable pub around : ℕ → (ℕ → A) → ℕ → ℕ → List A
  around n m i zero = []
  around n m i (suc k) = m i ∷ around n m ((i + 1) % n) k

  pub span-write :
      (m : ℕ → A) (p : ℕ) (v : A) (i k : ℕ) → i + k ≤ p → span (write m p v) i k ≡ span m i k
  unfolding span
  span-write m p v i zero h = refl
  span-write m p v i (suc k) h =
      rw (write_ne m p v i (λ e. omega arith), span-write m p v (i + 1) k (omega arith)) refl

  pub span-append : (m : ℕ → A) (i k : ℕ) → span m i (suc k) ≡ span m i k ++ (m (i + k) ∷ [])
  unfolding span
  span-append m i zero = ap (λ j. m j ∷ []) (omega arith)
  span-append m i (suc k) =
      let moved : i + 1 + k ≡ i + suc k = omega arith in
      ap (λ r. m i ∷ r) (span-append m (i + 1) k ∙ ap (λ j. span m (i + 1) k ++ (m j ∷ [])) moved)

-- Steps around a ring.
step_moved : (n i k : ℕ) → ((i + 1) % n + k) % n ≡ (i + suc k) % n
step_moved n i k = mod-add-mod (i + 1) n k ∙ ap (λ (j : ℕ). j % n) (omega arith)

step_lt : (n i : ℕ) → i < n → (i + 1) % n < n
step_lt n i h = mod-lt (i + 1) (omega arith)

-- Going on by less than a round does not lead back.
step_ne : (n i d : ℕ) → i < n → 0 < d → d < n → i ≢ (i + d) % n
step_ne n i d h p q e = elim (Bool-cases (ltb (i + d) n)) [
  | inl k ↦ let less : i + d < n = ground arith in absurd (omega (arith, e, mod-eq_of_lt less))
  | inr k ↦
      let more : n ≤ i + d = ground arith in
      let rest : i + d - n < n = omega arith in
      absurd (omega (arith, e, mod-eq-sub-mod more, mod-eq_of_lt rest))
]

module _ {ℓ} {A : Type ℓ} (n : ℕ) where
  pub around-append :
      (m : ℕ → A) (i k : ℕ)
      → i < n
      → around n m i (suc k) ≡ around n m i k ++ (m ((i + k) % n) ∷ [])
  unfolding around
  around-append m i zero h =
      ap (λ j. m j ∷ []) (sym (ap (λ (j : ℕ). j % n) (omega arith) ∙ mod-eq_of_lt h))
  around-append m i (suc k) h =
      ap (λ r. m i ∷ r)
        (around-append m ((i + 1) % n) k (step_lt n i h)
          ∙ ap (λ j. around n m ((i + 1) % n) k ++ (m j ∷ [])) (step_moved n i k))

  -- A write outside the window of `k` slots is not seen in it.
  pub around-write :
      (m : ℕ → A) (v : A) (i k d : ℕ)
      → i < n
      → k ≤ d
      → d < n
      → around n (write m ((i + d) % n) v) i k ≡ around n m i k
  unfolding around
  around-write m v i zero d h kd dn = refl
  around-write m v i (suc k) d h kd dn =
      let d_is : suc (d - 1) ≡ d = omega arith in
      let p : ((i + 1) % n + (d - 1)) % n ≡ (i + d) % n =
        step_moved n i (d - 1) ∙ ap (λ (e : ℕ). (i + e) % n) d_is in
      let rest =
        around-write m v ((i + 1) % n) k (d - 1) (step_lt n i h) (omega arith) (omega arith) in
      rw (write_ne m ((i + d) % n) v i (step_ne n i d h (omega arith) dn)) (
        ap (λ r. m i ∷ r)
          (subst (λ j. around n (write m j v) ((i + 1) % n) k ≡ around n m ((i + 1) % n) k) p rest))

  -- Writing the slot behind the window and taking it into the window appends.
  pub around-push :
      (m : ℕ → A) (v : A) (i k : ℕ)
      → i < n
      → k < n
      → around n (write m ((i + k) % n) v) i (suc k) ≡ around n m i k ++ (v ∷ [])
  around-push m v i k h kn =
      let w = write m ((i + k) % n) v in
      rw
        (
          around-append w i k h,
          around-write m v i k k h (omega arith) kn,
          write_self m ((i + k) % n) v,
        )
        refl
