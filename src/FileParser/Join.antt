-- ===== src/FileParser/Join.antt =====
-- `join_sentences` of storage_server/file_parser.c, and the words of a text cut into sentences or put
-- together from them.
use mathlib.Core.List.{flat_map}
use distributed_concurrent_f.Prelude.{
  Bool, true, false, ◌&&◌, List, [], ◌∷◌, ◌++◌, append-nil, append_assoc, ◌≡◌, refl, sym, arith,
  Bytes, ◌==◌, Bool-cases, inl, inr, ◌∙◌, ap,
}
use distributed_concurrent_f.CString.{is_space}
use distributed_concurrent_f.FileParser.{
  is_delimiter, split_into_sentences, sentence_gap, join_sentences_loop, join_sentences,
  split_into_words,
}
use distributed_concurrent_f.FileParser.Words.{
  runs, split_into_words-runs, runs_delimiter, runs-append, Breaks,
}
use distributed_concurrent_f.FileParser.Sentences.{chunks, split_into_sentences-chunks}

-- The sentences with the gaps between them, in plain recursion.
unfoldable pub spaced : List Bytes → Bytes
spaced [] = []
spaced (s ∷ sentences) = s ++ (sentence_gap sentences ++ spaced sentences)

join_sentences_loop-spaced :
    (ss : List Bytes) (t : Bytes) → join_sentences_loop ss t ≡ t ++ spaced ss
unfolding join_sentences_loop spaced
join_sentences_loop-spaced [] t = sym (append-nil t)
join_sentences_loop-spaced (s ∷ ss) t = join_sentences_loop-spaced ss _ ∙ simp append_assoc

pub join_sentences-spaced : (ss : List Bytes) → join_sentences ss ≡ spaced ss
unfolding join_sentences
join_sentences-spaced ss = join_sentences_loop-spaced ss []

gap-Breaks :
    (ss : List Bytes)
    → Breaks (sentence_gap ss ++ spaced ss)
      × (runs [] (sentence_gap ss ++ spaced ss) ≡ runs [] (spaced ss))
unfolding sentence_gap spaced
gap-Breaks [] = (tt, refl)
gap-Breaks ([] ∷ ss) = unfold is_space runs in (refl, refl)
gap-Breaks ((c ∷ s) ∷ ss) = elim (Bool-cases (c == 32)) [
  | inl blank ↦ let e : c ≡ 32 = ground arith in rw e (unfold is_space in refl, refl)
  | inr other ↦ rw other (unfold is_space in refl, unfold is_space runs in refl)
]

-- The words of joined sentences are the words of each sentence.
pub words-join_sentences :
    (ss : List Bytes) → split_into_words (join_sentences ss) ≡ flat_map split_into_words ss
unfolding spaced flat_map
words-join_sentences ss =
    split_into_words-runs (join_sentences ss) ∙ ap (runs []) (join_sentences-spaced ss) ∙ go ss
  where
    go : (ts : List Bytes) → runs [] (spaced ts) ≡ flat_map split_into_words ts
    go [] = unfold runs in refl
    go (t ∷ ts) =
        runs-append [] t _ (gap-Breaks ts).0
        ∙ rw ((gap-Breaks ts).1, split_into_words-runs t, go ts)

words-chunks :
    (s : Bytes) (fresh : Bool) (cur : Bytes)
    → (fresh ≡ true → cur ≡ [])
    → flat_map split_into_words (chunks fresh cur s) ≡ runs [] (cur ++ s)
unfolding chunks flat_map
words-chunks [] fresh [] h = unfold runs in refl
words-chunks [] fresh (c ∷ cur) h =
    rw (split_into_words-runs, append-nil (runs [] (c ∷ cur)), append-nil)
words-chunks (c ∷ s) fresh cur h = elim (Bool-cases (is_delimiter c)) [
  | inl delim ↦
      rw (delim, chunks, words-chunks s true [] (λ _. refl), split_into_words-runs)
        (sym (runs_delimiter cur s c delim))
  | inr other ↦ elim (Bool-cases (fresh && is_space c)) [
    | inl pass ↦
        let e : is_space c ≡ true = ground arith in
        let n : cur ≡ [] = h (ground arith) in
        rw (other, chunks, pass, words-chunks s true [] (λ _. refl), n)
          (sym (unfold runs in rw (e, runs)))
    | inr keep ↦
        rw (other, chunks, keep, words-chunks s false (cur ++ c ∷ []) (λ e. cc)) (simp append_assoc)
  ]
]

-- The words of a text are those of its sentences.
pub words-split_into_sentences :
    (s : Bytes) → flat_map split_into_words (split_into_sentences s) ≡ split_into_words s
words-split_into_sentences s =
    rw (split_into_sentences-chunks, split_into_words-runs) (words-chunks s false [] (λ e. cc))
