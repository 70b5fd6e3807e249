-- ===== src/Strings.antt =====
-- The memory and string routines of kernel/kstring.c. Memory is a function from addresses to bytes,
-- an address that is reached does not wrap around, and 0 is NULL. A loop that runs to a terminator
-- has fuel.
pub mod Moves
pub mod Numbers
mod Tests
use operating_system_sctrach.Common.{
  ℕ, zero, suc, ◌+◌, ◌-◌, ◌*◌, ◌%◌, ◌^◌, List, [], ◌∷◌, Bool, ltb, leb, ◌==◌, ◌&&◌, ◌||◌, not,
  if◌then◌else◌, length,
}
use operating_system_sctrach.Common.Memory.{write}
use operating_system_sctrach.Common.Int.{ℤ, pos, negsuc, sub_ℕ}
use operating_system_sctrach.Common.Decimal.{decimal}

-- `for (; i < n; i++) d[i] = s[i]`, with `n` bytes left.
unfoldable pub copy_up : ℕ → (ℕ → ℕ) → ℕ → ℕ → ℕ → ℕ
copy_up zero m d s = m
copy_up (suc n) m d s = copy_up n (write m d (m s)) (d + 1) (s + 1)

-- `for (i = n; i > 0; i--) d[i - 1] = s[i - 1]`
unfoldable pub copy_down : ℕ → (ℕ → ℕ) → ℕ → ℕ → ℕ → ℕ
copy_down zero m d s = m
copy_down (suc n) m d s = copy_down n (write m (d + n) (m (s + n))) d s

unfoldable pub memcpy : (ℕ → ℕ) → ℕ → ℕ → ℕ → ℕ → ℕ
memcpy m dest src n = copy_up n m dest src

unfoldable pub fill : ℕ → (ℕ → ℕ) → ℕ → ℕ → ℕ → ℕ
fill zero m d v = m
fill (suc n) m d v = fill n (write m d (v % 256)) (d + 1) v

unfoldable pub memset : (ℕ → ℕ) → ℕ → ℕ → ℕ → ℕ → ℕ
memset m dest val n = fill n m dest val

unfoldable pub memmove : (ℕ → ℕ) → ℕ → ℕ → ℕ → ℕ → ℕ
memmove m dest src n =
    let up = copy_up n m dest src in
    let down = copy_down n m dest src in
    if ltb dest src then up else (if ltb src dest then down else m)

unfoldable pub memcmp : ℕ → (ℕ → ℕ) → ℕ → ℕ → ℤ
memcmp zero m a b = pos 0
memcmp (suc n) m a b =
    let rest = memcmp n m (a + 1) (b + 1) in if m a == m b then rest else sub_ℕ (m a) (m b)

-- The length of the string at `s`, NULL having none; with fuel.
unfoldable pub count_bytes : ℕ → (ℕ → ℕ) → ℕ → ℕ
count_bytes zero m s = 0
count_bytes (suc n) m s = let rest = count_bytes n m (s + 1) in if m s == 0 then 0 else rest + 1

unfoldable pub strlen : ℕ → (ℕ → ℕ) → ℕ → ℕ
strlen fuel m s = if s == 0 then 0 else count_bytes fuel m s

-- The loop and the result of `strcmp`, with fuel; that of `strncmp` with `n - 1` bytes left.
unfoldable pub compare_bytes : ℕ → (ℕ → ℕ) → ℕ → ℕ → ℤ
compare_bytes zero m a b = sub_ℕ (m a) (m b)
compare_bytes (suc n) m a b =
    let rest = compare_bytes n m (a + 1) (b + 1) in
    if not (m a == 0) && m a == m b then rest else sub_ℕ (m a) (m b)

unfoldable pub compare_null : ℕ → ℕ → ℤ → ℤ
compare_null a b z =
    if a == 0 && b == 0 then pos 0 else if a == 0 then negsuc 0 else if b == 0 then pos 1 else z

unfoldable pub strcmp : ℕ → (ℕ → ℕ) → ℕ → ℕ → ℤ
strcmp fuel m a b = compare_null a b (compare_bytes fuel m a b)

unfoldable pub strncmp : (ℕ → ℕ) → ℕ → ℕ → ℕ → ℤ
strncmp m a b n = if n == 0 then pos 0 else compare_null a b (compare_bytes (n - 1) m a b)

-- `while ((*d++ = *src++) != '\0')`, with fuel.
unfoldable pub copy_string : ℕ → (ℕ → ℕ) → ℕ → ℕ → ℕ → ℕ
copy_string zero m d s = m
copy_string (suc n) m d s =
    let rest = copy_string n (write m d (m s)) (d + 1) (s + 1) in
    if m s == 0 then write m d 0 else rest

unfoldable pub strcpy : ℕ → (ℕ → ℕ) → ℕ → ℕ → ℕ → ℕ
strcpy fuel m dest src =
    let done = copy_string fuel m dest src in if dest == 0 || src == 0 then m else done

-- The two loops of `strncpy`, with `n` bytes left.
unfoldable pub copy_padded : ℕ → (ℕ → ℕ) → ℕ → ℕ → ℕ → ℕ
copy_padded zero m d s = m
copy_padded (suc n) m d s =
    let rest = copy_padded n (write m d (m s)) (d + 1) (s + 1) in
    if m s == 0 then fill (suc n) m d 0 else rest

unfoldable pub strncpy : (ℕ → ℕ) → ℕ → ℕ → ℕ → ℕ → ℕ
strncpy m dest src n =
    let done = copy_padded n m dest src in if dest == 0 || src == 0 then m else done

unfoldable pub strcat : ℕ → (ℕ → ℕ) → ℕ → ℕ → ℕ → ℕ
strcat fuel m dest src =
    let done = copy_string fuel m (dest + count_bytes fuel m dest) src in
    if dest == 0 || src == 0 then m else done

-- Writing bytes one after the other.
unfoldable pub write_bytes : (ℕ → ℕ) → ℕ → List ℕ → ℕ → ℕ
write_bytes m p [] = m
write_bytes m p (c ∷ cs) = write_bytes (write m p c) (p + 1) cs

-- The digits are at most 20, as `val` has 64 bits.
unfoldable pub uint_to_str : (ℕ → ℕ) → ℕ → ℕ → ℕ → ℕ
uint_to_str m val buf =
    let text = decimal 20 val in
    if buf == 0 then m else write (write_bytes m buf text) (buf + length text) 0

unfoldable pub int_to_str : (ℕ → ℕ) → ℤ → ℕ → ℕ → ℕ
int_to_str m (pos n) buf = uint_to_str m n buf
int_to_str m (negsuc n) buf = if buf == 0 then m else uint_to_str (write m buf 45) (n + 1) (buf + 1)
