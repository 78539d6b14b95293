-- ===== src/CString.antt =====
-- The routines of the C library on strings that the program calls, and src/common/common.c on top of
-- them: `split_string` (a loop over `strtok_r`) and `trim_newline`. Every call of `split_string`
-- passes one delimiter byte. Allocation failures are left out.
pub mod Fields
pub mod Lines
use distributed_concurrent_f.Prelude.{
  ℕ, zero, suc, ◌*◌, ◌+◌, ◌-◌, ℤ, pos, negsuc, if◌then◌else◌, Bool, true, false, ◌&&◌, ◌||◌, List,
  [], ◌∷◌, ◌++◌, Bytes, leb, ◌==◌, length,
}

-- `isspace` in the C locale: a blank, or one of \t \n \v \f \r.
unfoldable pub is_space : ℕ → Bool
is_space c = c == 32 || leb 9 c && leb c 13

-- A pointer moved past white space: `while (*p && isspace(*p)) p++;`
unfoldable pub skip_spaces : Bytes → Bytes
skip_spaces [] = []
skip_spaces (c ∷ s) = elim (is_space c) [ true ↦ skip_spaces s | false ↦ c ∷ s ]

-- The part of a token read so far, as a token if it is not empty.
abbrev pub emit : Bytes → List Bytes
emit [] = []
emit (c ∷ s) = (c ∷ s) ∷ []

-- `strtok_r` called to its end: delimiters are skipped, and a token runs up to the next of them.
unfoldable pub tokens_from : ℕ → Bytes → Bytes → List Bytes
tokens_from delim [] token = emit token
tokens_from delim (c ∷ s) token = elim (c == delim) [
  | true ↦ emit token ++ tokens_from delim s []
  | false ↦ tokens_from delim s (token ++ c ∷ [])
]

unfoldable pub split_string : Bytes → ℕ → List Bytes
unfolding tokens_from
split_string str delim = tokens_from delim str []

-- `str[strcspn(str, "\r\n")] = 0`
unfoldable pub trim_newline : Bytes → Bytes
trim_newline [] = []
trim_newline (c ∷ s) = elim (c == 13 || c == 10) [ true ↦ [] | false ↦ c ∷ trim_newline s ]

-- The digits that a text starts with, read behind the number `n`.
unfoldable pub digits_value : Bytes → ℕ → ℕ
digits_value [] n = n
digits_value (c ∷ s) n = elim (leb b'0' c && leb c b'9') [
  | true ↦ digits_value s (n * 10 + (c - b'0'))
  | false ↦ n
]

-- The number -n.
abbrev pub minus : ℕ → ℤ
minus zero = pos 0
minus (suc n) = negsuc n

abbrev pub signed_value : Bytes → ℤ
signed_value [] = pos 0
signed_value (c ∷ s) =
    if c == b'-'
    then minus (digits_value s 0)
    else if c == b'+'
    then pos (digits_value s 0)
    else pos (digits_value (c ∷ s) 0)

-- `atoi` and `atol`, for a number that fits the type; of any other the C standard says nothing.
unfoldable pub atoi : Bytes → ℤ
unfolding digits_value skip_spaces
atoi str = signed_value (skip_spaces str)

-- `fgets` called to the end of a text: a piece ends with its newline, or where the buffer, of `room`
-- bytes and two more, is full. `cur` is what the present call has read.
unfoldable pub lines_from : ℕ → Bytes → Bytes → List Bytes
lines_from room [] cur = emit cur
lines_from room (c ∷ s) cur = elim (c == 10 || length cur == room) [
  | true ↦ (cur ++ c ∷ []) ∷ lines_from room s []
  | false ↦ lines_from room s (cur ++ c ∷ [])
]

-- With a buffer of 4096 bytes.
unfoldable pub fgets_lines : Bytes → List Bytes
unfolding lines_from
fgets_lines text = lines_from 4094 text []
