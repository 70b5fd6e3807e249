-- ===== src/Pfn/Chain.antt =====
-- The free list of kernel/mm/vmm.c as a list of frame numbers.
use operating_system_sctrach.Common.{
  ℕ, ◌%◌, ◌^◌, ◌≤◌, ◌<◌, ◌≡◌, ◌≢◌, ◌⊎◌, inl, inr, List, [], ◌∷◌, arith, length, All,
}
use operating_system_sctrach.Common.Memory.{write, write_ne}
use operating_system_sctrach.Pfn.{Pmm, PfnEntry, free, no_pfn}

-- The frames that `next_free` leads through from `head` to the sentinel.
abbrev pub Chain : (ℕ → PfnEntry) → ℕ → List ℕ → Type 0
Chain db head [] = head ≡ no_pfn
Chain db head (x ∷ xs) = (head ≡ x) × Chain db (db x).next_free xs

abbrev pub NotIn : ℕ → List ℕ → Type 0
NotIn x = All (λ y. y ≢ x)

abbrev pub Distinct : List ℕ → Type 0
Distinct [] = Unit {0}
Distinct (x ∷ xs) = NotIn x xs × Distinct xs

-- A frame that may stand in the free list.
pub record IsListed (db : ℕ → PfnEntry) (count x : ℕ) : Type 0 where
  pub above_zero : 0 < x
  pub below : x < count
  pub unowned : (db x).state ≡ free
  pub unshared : (db x).ref_count ≡ 0

-- The free list of `p` is `xs`: its frames are free, unshared, distinct and counted (modulo 2 ^ 64).
pub record HasFree (p : Pmm) (xs : List ℕ) : Type 0 where
  pub chain : Chain p.database p.free_head xs
  pub listed : All (IsListed p.database p.pfn_count) xs
  pub distinct : Distinct xs
  pub counted : p.free_count ≡ length xs % 2 ^ 64
  pub small : p.pfn_count ≤ no_pfn

module _ (db : ℕ → PfnEntry) (x : ℕ) (e : PfnEntry) where
  -- A write to a frame outside the list does not disturb it.
  pub Chain-write :
      (head : ℕ) (xs : List ℕ) → NotIn x xs → Chain db head xs → Chain (write db x e) head xs
  Chain-write head [] out c = c
  Chain-write head (y ∷ ys) out c =
      (c.0, rw (write_ne db x e y out.0) (Chain-write (db y).next_free ys out.1 c.1))

  pub IsListed-write : (count y : ℕ) → y ≢ x → IsListed db count y → IsListed (write db x e) count y
  IsListed-write count y ne l = record {
    above_zero = l.above_zero;
    below = l.below;
    unowned = rw (write_ne db x e y ne) l.unowned;
    unshared = rw (write_ne db x e y ne) l.unshared;
  }

  pub All-write :
      (count : ℕ) (xs : List ℕ)
      → NotIn x xs
      → All (IsListed db count) xs
      → All (IsListed (write db x e) count) xs
  All-write count [] out l = tt
  All-write count (y ∷ ys) out l = (IsListed-write count y out.0 l.0, All-write count ys out.1 l.1)

-- A frame that is not free, or shared, is not in the list.
pub NotIn-of_owned :
    (db : ℕ → PfnEntry) (count x : ℕ) (xs : List ℕ)
    → ((db x).state ≢ free) ⊎ (0 < (db x).ref_count)
    → All (IsListed db count) xs
    → NotIn x xs
NotIn-of_owned db count x [] own l = tt
NotIn-of_owned db count x (y ∷ ys) own l =
    (λ e. clash e l.0 own, NotIn-of_owned db count x ys own l.1)
  where
    clash : y ≡ x → IsListed db count y → ((db x).state ≢ free) ⊎ (0 < (db x).ref_count) → ⊥
    clash e i (inl h) = h (rw (← e) (i.unowned))
    clash e i (inr h) = omega (arith, moved)
      where
        moved : (db x).ref_count ≡ 0
        moved = rw (← e) i.unshared
