-- ===== src/Prelude/Text.antt =====
-- C strings. A string is the list of its bytes before the terminating NUL; `str_eq a b` is
-- `strcmp(a, b) == 0`, and `copy_name` is `strncpy(dst, src, 255)` into a field of 256 bytes.
use Prim.Native.Nat.{ℕ, ◌≤◌}
use Prim.Native.Char.{code}
use Prim.Native.String.{String}
use mathlib.Core.Path.{◌≡◌, refl}
use mathlib.Core.Logic.{◌↔◌}
use mathlib.Core.Bool.{Bool, true, false, ◌&&◌, ◌||◌}
use mathlib.Core.List.{List, [], ◌∷◌}
use native.Mathlib.Omega.{arith}
use distributed_concurrent_f.Prelude.Tests.{◌==◌}
use distributed_concurrent_f.Prelude.Lists.{length, take, take_all, length-take}

abbrev pub Bytes : Type 0
Bytes = List ℕ

-- The bytes of an ASCII literal.
abbrev pub codes : String → Bytes
codes String.[] = []
codes (String.◌∷◌ c s) = code c ∷ codes s

unfoldable pub str_eq : Bytes → Bytes → Bool
str_eq [] [] = true
str_eq [] (b ∷ t) = false
str_eq (a ∷ s) [] = false
str_eq (a ∷ s) (b ∷ t) = a == b && str_eq s t

pub str_eq_refl : (s : Bytes) → str_eq s s ≡ true
unfolding str_eq
str_eq_refl [] = refl
str_eq_refl (a ∷ s) = ground (arith, str_eq_refl s)

pub str_eq→eq : (s t : Bytes) → str_eq s t ≡ true → s ≡ t
unfolding str_eq
str_eq→eq [] [] h = refl
str_eq→eq [] (b ∷ t) h = cc
str_eq→eq (a ∷ s) [] h = cc
str_eq→eq (a ∷ s) (b ∷ t) h = ground (arith, str_eq→eq s t)

pub str_eq_iff : (s t : Bytes) → (str_eq s t ≡ true) ↔ (s ≡ t)
str_eq_iff s t = (str_eq→eq s t, λ e. rw e (str_eq_refl t))

-- The list has the text.
abbrev pub lists : List Bytes → Bytes → Bool
lists [] q = false
lists (w ∷ names) q = str_eq q w || lists names q

-- `MAX_FILENAME_LEN - 1` and `MAX_USERNAME_LEN - 1`
abbrev pub max_name : ℕ
max_name = 255

unfoldable pub copy_name : Bytes → Bytes
copy_name s = take max_name s

pub copy_name_short : (s : Bytes) → length s ≤ max_name → copy_name s ≡ s
unfolding copy_name
copy_name_short s h = take_all max_name s h

pub copy_name_fits : (s : Bytes) → length (copy_name s) ≤ max_name
unfolding copy_name
copy_name_fits s = omega (arith, length-take max_name s)
