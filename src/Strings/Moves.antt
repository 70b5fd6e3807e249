-- ===== src/Strings/Moves.antt =====
-- What the block copies of kernel/kstring.c leave in memory.
use operating_system_sctrach.Common.{
  ℕ, zero, suc, ◌+◌, ◌-◌, ◌%◌, ◌≤◌, ◌≡◌, ltb, leb, ◌&&◌, if◌then◌else◌, arith, Bool-cases, inl, inr,
}
use operating_system_sctrach.Common.Memory.{write}
use operating_system_sctrach.Strings.{copy_up, copy_down, memmove, memset, fill}

-- Memory after the `n` bytes at `s` have come to `d`.
abbrev pub moved : ℕ → (ℕ → ℕ) → ℕ → ℕ → ℕ → ℕ
moved n m d s a = if leb d a && ltb a (d + n) then m (s + (a - d)) else m a

-- Copying upwards does not read what it wrote when the target is not above the source.
copy_up-moved :
    (n : ℕ) (m : ℕ → ℕ) (d s : ℕ) → d ≤ s → (a : ℕ) → copy_up n m d s a ≡ moved n m d s a
unfolding copy_up write
copy_up-moved zero m d s h a = ground arith
copy_up-moved (suc n) m d s h a =
    let rest = copy_up-moved n (write m d (m s)) (d + 1) (s + 1) (omega arith) a in ground arith

copy_down-moved :
    (n : ℕ) (m : ℕ → ℕ) (d s : ℕ) → s ≤ d → (a : ℕ) → copy_down n m d s a ≡ moved n m d s a
unfolding copy_down write
copy_down-moved zero m d s h a = ground arith
copy_down-moved (suc n) m d s h a =
    let rest = copy_down-moved n (write m (d + n) (m (s + n))) d s h a in ground arith

-- `memmove` leaves in the target what the source held before, also where the two overlap, and the
-- rest of memory as it was.
pub memmove-moved :
    (m : ℕ → ℕ) (dest src n a : ℕ)
    → memmove m dest src n a
      ≡ (if leb dest a && ltb a (dest + n) then m (src + (a - dest)) else m a)
unfolding memmove
memmove-moved m dest src n a = elim (Bool-cases (ltb dest src)) [
  | inl e ↦ let up = copy_up-moved n m dest src (ground arith) a in ground arith
  | inr e ↦ let down = copy_down-moved n m dest src (ground arith) a in ground arith
]

-- `memset` sets its range to the low byte of the value and leaves the rest.
pub memset-fill :
    (m : ℕ → ℕ) (dest val n a : ℕ)
    → memset m dest val n a ≡ (if leb dest a && ltb a (dest + n) then val % 256 else m a)
unfolding memset fill write
memset-fill m dest val n a = go n m dest
  where
    go :
        (n : ℕ) (m : ℕ → ℕ) (d : ℕ)
        → fill n m d val a ≡ (if leb d a && ltb a (d + n) then val % 256 else m a)
    go zero m d = ground arith
    go (suc n) m d = let rest = go n (write m d (val % 256)) (d + 1) in ground arith
