-- ===== src/Common/Text.antt =====
-- C strings. A `const char *` is the list of the bytes before its terminator, so reading at or past
-- the end gives the terminator.
use Prim.Native.Nat.{ℕ, zero, suc}
use Prim.Native.Char.{code}
use Prim.Native.String.{String}
use mathlib.Core.List.{List, [], ◌∷◌}
use mathlib.Core.Bool.{Bool, true, false, ◌&&◌}
use operating_system_sctrach.Common.Tests.{◌==◌, if◌then◌else◌}

-- The bytes of an ASCII literal.
abbrev pub codes : String → List ℕ
codes String.[] = []
codes (String.◌∷◌ c s) = code c ∷ codes s

-- At most `n` bytes of a C string, up to its terminator: what `strncpy` copies into a field that holds
-- `n` bytes before its last, and what `strncmp` compares.
unfoldable pub copy_text : ℕ → List ℕ → List ℕ
copy_text zero cs = []
copy_text (suc n) [] = []
copy_text (suc n) (c ∷ cs) = let rest = copy_text n cs in if c == 0 then [] else c ∷ rest

-- Equality of two C strings, as `strcmp` tests it.
unfoldable pub same_text : List ℕ → List ℕ → Bool
same_text [] [] = true
same_text [] (y ∷ ys) = false
same_text (x ∷ xs) [] = false
same_text (x ∷ xs) (y ∷ ys) = (x == y) && same_text xs ys
