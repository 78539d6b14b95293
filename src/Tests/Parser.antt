-- ===== src/Tests/Parser.antt =====
-- Splitting, joining and updating the text of a file.
use distributed_concurrent_f.Prelude.{
  false, ◌+◌, ◌≤◌, [], ◌∷◌, ◌≡◌, ◌↔◌, refl, arith, Bytes, codes, length, pos, none, some,
}
use distributed_concurrent_f.CString.{is_space, skip_spaces, tokens_from, split_string}
use distributed_concurrent_f.FileParser.{
  is_delimiter, sentences_loop, split_into_sentences, close_word, words_loop, split_into_words,
  join_words, join_sentences, total_len, insert_words, apply_single_update, join_words_loop,
  join_sentences_loop, word_gap, sentence_gap, first_char, open_sentence, rejoin,
}
use distributed_concurrent_f.FileParser.Reparse.{
  Parsed, split_into_sentences-Parsed, split-join_sentences,
}
use distributed_concurrent_f.FileParser.Update.{
  InRange, Inserted, apply_single_update-Inserted, apply_single_update-eq-none,
}
use distributed_concurrent_f.FileParser.Bounds.{joins_fit}

abbrev text : Bytes
text = codes "One two. Three"

sentences : split_into_sentences text ≡ codes "One two." ∷ codes "Three" ∷ []
unfolding split_into_sentences sentences_loop skip_spaces is_space is_delimiter
sentences = refl

words : split_into_words text ≡ codes "One" ∷ codes "two" ∷ codes "." ∷ codes "Three" ∷ []
unfolding split_into_words words_loop close_word is_space is_delimiter
words = refl

updated :
    apply_single_update text (pos 0) (pos 1) (codes "new.") ≡ some (codes "One new. two. Three")
unfolding apply_single_update open_sentence insert_words rejoin split_string tokens_from
    split_into_sentences sentences_loop split_into_words words_loop close_word skip_spaces is_space
    is_delimiter join_words join_words_loop word_gap first_char join_sentences join_sentences_loop
    sentence_gap
updated = refl

text-InRange : InRange text (pos 1) (pos 1)
unfolding split_into_sentences sentences_loop split_into_words words_loop close_word skip_spaces
    is_space is_delimiter
text-InRange = (omega arith, omega arith)

apply_single_update-Inserted_example :
    (r : Bytes) × (apply_single_update text (pos 1) (pos 1) (codes "four.") ≡ some r)
    × Inserted text 1 1 (codes "four.") r
apply_single_update-Inserted_example =
    apply_single_update-Inserted text 1 1 (codes "four.") text-InRange

apply_single_update-eq-none_example :
    (apply_single_update text (pos 7) (pos 0) (codes "far") ≡ none)
    ↔ (¬ InRange text (pos 7) (pos 0))
apply_single_update-eq-none_example = apply_single_update-eq-none text (pos 7) (pos 0) (codes "far")

split-join_sentences_example :
    split_into_sentences (join_sentences (split_into_sentences text)) ≡ split_into_sentences text
split-join_sentences_example =
    split-join_sentences (split_into_sentences text) (split_into_sentences-Parsed text)

split_into_sentences-Parsed_example : Parsed false (split_into_sentences text)
split_into_sentences-Parsed_example = split_into_sentences-Parsed text

two_words : 1 ≤ length (split_into_words (codes "a b"))
unfolding split_into_words words_loop close_word is_space is_delimiter
two_words = omega arith

joins_fit_example :
    (length (join_words (codes "a" ∷ codes "b" ∷ [])) + 1
      ≤ total_len (codes "a" ∷ codes "b" ∷ []) + 1)
    × (length (join_sentences (codes "a" ∷ codes "b" ∷ [])) + 1
        ≤ total_len (codes "a" ∷ codes "b" ∷ []))
joins_fit_example = joins_fit (codes "a") (codes "b" ∷ [])
