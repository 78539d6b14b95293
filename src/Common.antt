-- ===== src/Common.antt =====
-- The file utilities of common/common.c, on the text of a file.
pub mod Count
use distributed_concurrent_f.Prelude.{
  ℕ, ◌+◌, Bool, true, false, ◌||◌, [], ◌∷◌, Bytes, ◌==◌, if◌then◌else◌,
}
use distributed_concurrent_f.CString.{is_space}

-- `fgetc` is read into a `char`, so the byte 255 is taken for the end of the file.
abbrev pub eof : ℕ
eof = 255

-- The loop of `get_word_count`, with the last word.
unfoldable pub count_loop : Bytes → ℕ → Bool → ℕ
count_loop [] count in_word = if in_word then count + 1 else count
count_loop (c ∷ text) count in_word = elim (c == eof) [
  | true ↦ if in_word then count + 1 else count
  | false ↦ elim (is_space c || (c == b'.' || (c == b'!' || c == b'?'))) [
    | true ↦ count_loop text (if in_word then count + 1 else count) false
    | false ↦ count_loop text count true
  ]
]

unfoldable pub get_word_count : Bytes → ℕ
unfolding count_loop is_space
get_word_count text = count_loop text 0 false
