-- ===== src/Strings/Tests.antt =====
-- Runs of the routines of kernel/kstring.c on small memories.
use operating_system_sctrach.Common.{ℕ, ◌≡◌, refl, [], ◌∷◌, arith, if◌then◌else◌, ◌==◌, some, ◌≤◌}
use operating_system_sctrach.Common.Int.{pos, negsuc}
use operating_system_sctrach.Common.Ring.{span}
use operating_system_sctrach.Common.Decimal.{decimal, read_decimal, low_digits}
use operating_system_sctrach.Common.Memory.{write}
use operating_system_sctrach.Strings.{
  memmove, memset, memcpy, memcmp, copy_up, copy_down, fill, strlen, count_bytes, strcmp, strncmp,
  compare_bytes, compare_null, strcpy, copy_string, strncpy, copy_padded, strcat, uint_to_str,
  int_to_str, write_bytes,
}
use operating_system_sctrach.Strings.Moves.{memmove-moved}
use operating_system_sctrach.Strings.Numbers.{uint_to_str-read_decimal}

-- Memory in which the byte at each address is the address.
abbrev ramp : ℕ → ℕ
ramp a = a

-- "abc" at 8 and "abd" at 16, and zeros.
abbrev texts : ℕ → ℕ
texts a =
    if a == 8
    then 97
    else if a == 9
    then 98
    else if a == 10
    then 99
    else if a == 16
    then 97
    else if a == 17
    then 98
    else if a == 18
    then 100
    else 0

memmove-moved_example : memmove ramp 3 1 4 5 ≡ 3
memmove-moved_example = memmove-moved ramp 3 1 4 5

uint_to_str-read_decimal_example :
    let m' = uint_to_str ramp 4096 32 in
    let n = strlen 21 m' 32 in (read_decimal (span m' 32 n) ≡ some 4096) × (n ≤ 20)
uint_to_str-read_decimal_example = uint_to_str-read_decimal ramp 4096 32 (omega arith) (omega arith)

memcpy_run : span (memcpy ramp 100 3 4) 100 4 ≡ 3 ∷ 4 ∷ 5 ∷ 6 ∷ []
unfolding span memcpy copy_up write
memcpy_run = refl

memmove_run : span (memmove ramp 3 1 4) 1 6 ≡ 1 ∷ 2 ∷ 1 ∷ 2 ∷ 3 ∷ 4 ∷ []
unfolding span memmove copy_up copy_down write
memmove_run = refl

memset_run : span (memset ramp 3 257 2) 2 4 ≡ 2 ∷ 1 ∷ 1 ∷ 5 ∷ []
unfolding span memset fill write
memset_run = refl

compare_run :
    (strcmp 8 texts 8 16 ≡ negsuc 0)
    × (strncmp texts 8 16 2 ≡ pos 0)
    × (memcmp 3 texts 8 16 ≡ negsuc 0)
    × (strcmp 8 texts 0 8 ≡ negsuc 0)
unfolding strcmp strncmp memcmp compare_bytes compare_null
compare_run = (refl, refl, refl, refl)

strlen_run : (strlen 8 texts 8 ≡ 3) × (strlen 8 texts 0 ≡ 0)
unfolding strlen count_bytes
strlen_run = (refl, refl)

copy_run :
    (span (strcpy 8 texts 32 8) 32 4 ≡ 97 ∷ 98 ∷ 99 ∷ 0 ∷ [])
    × (span (strncpy ramp 32 1 2) 32 3 ≡ 1 ∷ 2 ∷ 34 ∷ [])
    × (span (strcat 8 texts 8 16) 8 7 ≡ 97 ∷ 98 ∷ 99 ∷ 97 ∷ 98 ∷ 100 ∷ 0 ∷ [])
unfolding span strcpy copy_string strncpy copy_padded strcat count_bytes fill write
copy_run = (refl, refl, refl)

int_to_str_run : span (int_to_str ramp (negsuc 41) 64) 64 4 ≡ 45 ∷ 52 ∷ 50 ∷ 0 ∷ []
unfolding span int_to_str uint_to_str write_bytes decimal low_digits write
int_to_str_run = refl
