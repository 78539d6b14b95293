-- ===== src/Common/Count.antt =====
-- `get_word_count` of common/common.c against `split_into_words` of storage_server/file_parser.c.
use distributed_concurrent_f.Prelude.{
  ℕ, ◌+◌, true, false, ◌||◌, List, [], ◌∷◌, ◌++◌, ◌≡◌, refl, arith, Bytes, ◌==◌, All, Bool-cases,
  inl, inr, if◌then◌else◌,
}
use distributed_concurrent_f.CString.{is_space, emit}
use distributed_concurrent_f.Common.{eof, count_loop, get_word_count}
use distributed_concurrent_f.FileParser.{is_delimiter, first_char, split_into_words}
use distributed_concurrent_f.FileParser.Words.{
  runs, split_into_words-runs, nonempty, nonempty-append,
}

-- The words that are no delimiter.
unfoldable pub prose_count : List Bytes → ℕ
prose_count [] = 0
prose_count (w ∷ words) =
    let rest = prose_count words in if is_delimiter (first_char w) then rest else rest + 1

-- The byte does not read as the end of the file.
abbrev pub IsText : ℕ → Type 0
IsText c = (c == eof) ≡ false

prose_count-append : (xs ys : List Bytes) → prose_count (xs ++ ys) ≡ prose_count xs + prose_count ys
unfolding prose_count
prose_count-append [] ys = omega arith
prose_count-append (w ∷ xs) ys = ground (arith, prose_count-append xs ys)

prose_count-emit :
    (cur : Bytes)
    → is_delimiter (first_char cur) ≡ false
    → prose_count (emit cur) ≡ (if nonempty cur then 1 else 0)
unfolding prose_count
prose_count-emit [] h = refl
prose_count-emit (c ∷ cur) h = rw h refl

first-grown :
    (cur : Bytes) (c : ℕ)
    → is_delimiter (first_char cur) ≡ false
    → is_delimiter c ≡ false
    → is_delimiter (first_char (cur ++ c ∷ [])) ≡ false
first-grown [] c h other = other
first-grown (b ∷ cur) c h other = h

no_first : is_delimiter (first_char []) ≡ false
unfolding is_delimiter
no_first = refl

delimiter_test : (c : ℕ) → is_delimiter c ≡ (c == b'.' || (c == b'!' || c == b'?'))
unfolding is_delimiter
delimiter_test c = ground arith

alone :
    (c : ℕ) (words : List Bytes)
    → is_delimiter c ≡ true
    → prose_count ((c ∷ []) ∷ words) ≡ prose_count words
unfolding prose_count
alone c words h = rw h refl

count_loop-runs :
    (text cur : Bytes) (count : ℕ)
    → All IsText text
    → is_delimiter (first_char cur) ≡ false
    → count_loop text count (nonempty cur) ≡ count + prose_count (runs cur text)
unfolding count_loop runs
count_loop-runs [] cur count h plain = ground (arith, prose_count-emit cur plain)
count_loop-runs (c ∷ text) cur count h plain =
    let cut : prose_count (emit cur ++ runs [] text)
        ≡ prose_count (emit cur) + prose_count (runs [] text) =
      prose_count-append (emit cur) (runs [] text) in
    let stop : prose_count (emit cur ++ (c ∷ []) ∷ runs [] text)
        ≡ prose_count (emit cur) + prose_count ((c ∷ []) ∷ runs [] text) =
      prose_count-append (emit cur) ((c ∷ []) ∷ runs [] text) in
    let closed = count_loop-runs text [] (if nonempty cur then count + 1 else count) h.1 no_first in
    let grown = count_loop-runs text (cur ++ c ∷ []) count h.1 in
    elim (Bool-cases (is_space c)) [
      | inl blank ↦ ground (arith, h.0, blank, cut, closed, prose_count-emit cur plain)
      | inr inside ↦ elim (Bool-cases (is_delimiter c)) [
        | inl delim ↦ ground (
          arith,
          h.0,
          inside,
          delim,
          delimiter_test c,
          stop,
          closed,
          prose_count-emit cur plain,
          alone c (runs [] text) delim,
        )
        | inr letter ↦ ground (
          arith,
          h.0,
          inside,
          letter,
          delimiter_test c,
          nonempty-append cur c,
          grown (first-grown cur c plain letter),
        )
      ]
    ]

-- The count of the words in a file is the number of the words that the parser finds in its text, less
-- the delimiters. No byte of the text is 255, which the count takes for its end.
pub get_word_count-eq :
    (text : Bytes) → All IsText text → get_word_count text ≡ prose_count (split_into_words text)
unfolding get_word_count
get_word_count-eq text h =
    let counted = count_loop-runs text [] 0 h no_first in
    rw split_into_words-runs (omega (arith, counted))
