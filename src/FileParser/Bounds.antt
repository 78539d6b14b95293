-- ===== src/FileParser/Bounds.antt =====
-- The buffers that `join_words` and `join_sentences` allocate, against what is written to them.
use distributed_concurrent_f.Prelude.{
  ◌+◌, ◌≤◌, List, [], ◌∷◌, ◌++◌, arith, Bytes, length, length-append,
}
use distributed_concurrent_f.FileParser.{
  word_gap, join_words_loop, join_words, sentence_gap, join_sentences_loop, join_sentences,
  total_len,
}

word_gap-le : (ws : List Bytes) → length (word_gap ws) ≤ 1
unfolding word_gap
word_gap-le [] = omega arith
word_gap-le (w ∷ ws) = ground arith

sentence_gap-le : (ss : List Bytes) → length (sentence_gap ss) ≤ 1
unfolding sentence_gap
sentence_gap-le [] = omega arith
sentence_gap-le (s ∷ ss) = ground arith

join_words_loop-le :
    (ws : List Bytes) (s : Bytes) → length (join_words_loop ws s) ≤ length s + total_len ws
unfolding join_words_loop total_len
join_words_loop-le [] s = omega arith
join_words_loop-le (w ∷ ws) s = omega (
  arith,
  join_words_loop-le ws ((s ++ w) ++ word_gap ws),
  length-append (s ++ w) (word_gap ws),
  length-append s w,
  word_gap-le ws,
)

-- There is no gap behind the last sentence, so one byte is left for the NUL.
join_sentences_loop-le :
    (s : Bytes) (ss : List Bytes) (t : Bytes)
    → length (join_sentences_loop (s ∷ ss) t) + 1 ≤ length t + total_len (s ∷ ss)
unfolding join_sentences_loop total_len sentence_gap
join_sentences_loop-le s [] t = omega (arith, length-append (t ++ s) [], length-append t s)
join_sentences_loop-le s (s' ∷ ss) t =
    let gap = sentence_gap (s' ∷ ss) in
    omega (
      arith,
      join_sentences_loop-le s' ss ((t ++ s) ++ gap),
      length-append (t ++ s) gap,
      length-append t s,
      sentence_gap-le (s' ∷ ss),
    )

-- Both joins fit their buffer with the NUL: `total_len + 1` bytes for words, `total_len` for
-- sentences.
pub joins_fit :
    (s : Bytes) (strings : List Bytes)
    → (length (join_words (s ∷ strings)) + 1 ≤ total_len (s ∷ strings) + 1)
      × (length (join_sentences (s ∷ strings)) + 1 ≤ total_len (s ∷ strings))
unfolding join_words join_sentences
joins_fit s strings = (
  omega (arith, join_words_loop-le (s ∷ strings) []),
  omega (arith, join_sentences_loop-le s strings []),
)
