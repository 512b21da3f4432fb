-- ===== src/Base/Text.antt =====
-- C strings: the bytes before the terminator, and buffers with the terminator in them.
use Prim.Native.Char.{code}
use Prim.Native.String.{String}
use mathlib.Core.Path.{◌≡◌, refl}
use mathlib.Core.Logic.{◌≢◌}
use mathlib.Core.Bool.{Bool, true, false, not, ◌&&◌}
use mathlib.Core.List.{List, [], ◌∷◌, ◌++◌}
use native.Mathlib.Omega.{arith}
use Prim.Native.Nat.{ℕ}
use parallel_wrapper.Base.Tests.{◌==◌, if◌then◌else◌}
use parallel_wrapper.Base.Lists.{All}

abbrev pub Bytes : Type 0
Bytes = List ℕ

-- The code points of a literal: its bytes, since every literal of the program is ASCII.
abbrev pub codes : String → Bytes
codes String.[] = []
codes (String.◌∷◌ c s) = code c ∷ codes s

-- `strcmp(a, b) == 0`.
abbrev pub str_eq : Bytes → Bytes → Bool
str_eq [] [] = true
str_eq [] (b ∷ t) = false
str_eq (a ∷ s) [] = false
str_eq (a ∷ s) (b ∷ t) = (a == b) && str_eq s t

-- The string that a buffer holds: what stands before its first NUL.
abbrev pub c_str : Bytes → Bytes
c_str [] = []
c_str (c ∷ buf) = if c == 0 then [] else c ∷ c_str buf

-- A list of bytes that a C string can hold.
abbrev pub IsText : Bytes → Type 0
IsText = All (λ c. c ≢ 0)

pub str_eq→eq : (a b : Bytes) → str_eq a b ≡ true → a ≡ b
str_eq→eq [] [] h = refl
str_eq→eq [] (b ∷ t) h = cc
str_eq→eq (a ∷ s) [] h = cc
str_eq→eq (a ∷ s) (b ∷ t) h = ground (arith, str_eq→eq s t)

pub str_eq_refl : (a : Bytes) → str_eq a a ≡ true
str_eq_refl [] = refl
str_eq_refl (a ∷ s) = ground (arith, str_eq_refl s)

pub c_str-append : (s rest : Bytes) → IsText s → c_str (s ++ 0 ∷ rest) ≡ s
c_str-append [] rest h = refl
c_str-append (c ∷ s) rest h = ground (arith, c_str-append s rest h.1)

-- The same as a test.
abbrev pub is_text : Bytes → Bool
is_text [] = true
is_text (c ∷ s) = not (c == 0) && is_text s

pub is_text-IsText : (s : Bytes) → is_text s ≡ true → IsText s
is_text-IsText [] h = tt
is_text-IsText (c ∷ s) h = ((λ e. ground (arith, h, e)), is_text-IsText s (ground (arith, h)))
