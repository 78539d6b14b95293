-- ===== src/FileParser.antt =====
-- storage_server/file_parser.c: sentences and words of a text file, and the insertion of words.
-- A `const char*` is the list of the bytes that follow it, so `start` and `p` are suffixes of the
-- text and `p - start` is the difference of two lengths. Bytes are read as non-negative numbers.

pub mod Words
pub mod Insert
pub mod Sentences
pub mod Join
pub mod Reparse
pub mod Update
pub mod Bounds
use distributed_concurrent_f.Prelude.{
  ℕ, ◌+◌, ◌-◌, Bool, true, false, ◌||◌, List, [], ◌∷◌, ◌++◌, Option, none, some, Bytes, ℤ, pos,
  negsuc, ltb, ◌==◌, if◌then◌else◌, length, get_or, set, take, drop,
}
use distributed_concurrent_f.CString.{is_space, skip_spaces, split_string}

unfoldable pub is_delimiter : ℕ → Bool
is_delimiter c = c == b'.' || c == b'!' || c == b'?'

-- The loop over `p`, and the remaining text as the last sentence. In a round `*p` is `c`, so the
-- copied length `p - start + 1` is the length of `start` less that of the bytes after `c`.
unfoldable pub sentences_loop : Bytes → Bytes → List Bytes → List Bytes
sentences_loop [] start sentences =
    if ltb 0 (length start) then sentences ++ take (length start) start ∷ [] else sentences
sentences_loop (c ∷ p) start sentences = elim (is_delimiter c) [
  | true ↦ sentences_loop p (skip_spaces p) (sentences ++ take (length start - length p) start ∷ [])
  | false ↦ sentences_loop p start sentences
]

unfoldable pub split_into_sentences : Bytes → List Bytes
unfolding sentences_loop skip_spaces is_delimiter is_space
split_into_sentences content = sentences_loop content content []

-- The bytes from `start` up to `p`, as one more word, if the scan is inside a word.
unfoldable pub close_word : Bool → Bytes → Bytes → List Bytes → List Bytes
close_word in_word start p words =
    if in_word then words ++ take (length start - length p) start ∷ [] else words

unfoldable pub words_loop : Bytes → Bytes → Bool → List Bytes → List Bytes
words_loop [] start in_word words = close_word in_word start [] words
words_loop (c ∷ p) start in_word words = elim (is_space c) [
  | true ↦ words_loop p p false (close_word in_word start (c ∷ p) words)
  | false ↦ elim (is_delimiter c) [
    | true ↦ words_loop p p false (close_word in_word start (c ∷ p) words ++ (c ∷ []) ∷ [])
    | false ↦ words_loop p start true words
  ]
]

unfoldable pub split_into_words : Bytes → List Bytes
unfolding words_loop close_word is_delimiter is_space
split_into_words sentence = words_loop sentence sentence false []

-- The byte at index 0, which is the NUL for an empty string.
abbrev pub first_char : Bytes → ℕ
first_char s = get_or s 0 0

-- What is put after a word: nothing after the last one or before a delimiter, else a blank.
unfoldable pub word_gap : List Bytes → Bytes
word_gap [] = []
word_gap (next ∷ words) = if is_delimiter (first_char next) then [] else 32 ∷ []

unfoldable pub join_words_loop : List Bytes → Bytes → Bytes
join_words_loop [] sentence = sentence
join_words_loop (w ∷ words) sentence = join_words_loop words ((sentence ++ w) ++ word_gap words)

unfoldable pub join_words : List Bytes → Bytes
unfolding join_words_loop word_gap is_delimiter
join_words words = join_words_loop words []

-- What is put after a sentence: nothing after the last one or before a blank, else a blank.
unfoldable pub sentence_gap : List Bytes → Bytes
sentence_gap [] = []
sentence_gap (next ∷ sentences) = if first_char next == 32 then [] else 32 ∷ []

unfoldable pub join_sentences_loop : List Bytes → Bytes → Bytes
join_sentences_loop [] content = content
join_sentences_loop (s ∷ sentences) content =
    join_sentences_loop sentences ((content ++ s) ++ sentence_gap sentences)

unfoldable pub join_sentences : List Bytes → Bytes
unfolding join_sentences_loop sentence_gap
join_sentences sentences = join_sentences_loop sentences []

-- `total_len` of both joins: the length of each string, and one byte more.
unfoldable pub total_len : List Bytes → ℕ
total_len [] = 0
total_len (s ∷ strings) = (length s + 1) + total_len strings

-- The bounds check on `sent_num`, with the APPEND case: an empty sentence at the end.
unfoldable pub open_sentence : List Bytes → ℕ → Option (List Bytes)
open_sentence sentences n =
    if ltb (length sentences) n
    then none
    else if n == length sentences
    then some (sentences ++ [] ∷ [])
    else some sentences

-- The bounds check on `word_idx`, and the sentence with the new words before that word.
unfoldable pub insert_words : Bytes → ℤ → Bytes → Option Bytes
insert_words sentence (negsuc i) new_content = none
insert_words sentence (pos i) new_content =
    let words = split_into_words sentence in
    if ltb (length words) i
    then none
    else some (join_words (take i words ++ split_string new_content 32 ++ drop i words))

-- Join, and parse once more, since the new words may hold delimiters.
unfoldable pub rejoin : List Bytes → Bytes
rejoin sentences = join_sentences (split_into_sentences (join_sentences sentences))

abbrev pub update_opened : Option (List Bytes) → ℕ → ℤ → Bytes → Option Bytes
update_opened none n word_idx new_content = none
update_opened (some sentences) n word_idx new_content =
    elim (insert_words (get_or sentences n []) word_idx new_content) [
      | none ↦ none
      | some new_sentence ↦ some (rejoin (set sentences n new_sentence))
    ]

-- `none` is the NULL that the function returns when an index is out of range.
unfoldable pub apply_single_update : Bytes → ℤ → ℤ → Bytes → Option Bytes
unfolding open_sentence insert_words rejoin
apply_single_update content (negsuc n) word_idx new_content = none
apply_single_update content (pos n) word_idx new_content =
    update_opened (open_sentence (split_into_sentences content) n) n word_idx new_content
