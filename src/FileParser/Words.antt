-- ===== src/FileParser/Words.antt =====
-- `split_into_words` and `join_words` of storage_server/file_parser.c: what a word is, and how
-- splitting and joining undo one another.
use mathlib.Core.List.{flat_map}
use distributed_concurrent_f.Prelude.{
  ℕ, ◌-◌, Bool, true, false, ◌||◌, List, [], ◌∷◌, ◌++◌, append-nil, append_assoc, ◌≡◌, refl, sym,
  arith, Bytes, length, length-append, take-append_length, Bool-cases, inl, inr, ◌∙◌, ap,
}
use distributed_concurrent_f.CString.{is_space, emit}
use distributed_concurrent_f.FileParser.{
  is_delimiter, close_word, words_loop, split_into_words, word_gap, join_words_loop, join_words,
}

-- The words of a text behind the part `cur` of a word.
unfoldable pub runs : Bytes → Bytes → List Bytes
runs cur [] = emit cur
runs cur (c ∷ s) = elim (is_space c) [
  | true ↦ emit cur ++ runs [] s
  | false ↦ elim (is_delimiter c) [
    | true ↦ emit cur ++ (c ∷ []) ∷ runs [] s
    | false ↦ runs (cur ++ c ∷ []) s
  ]
]

-- What ends a word that stands before it.
abbrev pub Breaks : Bytes → Type 0
Breaks [] = Unit
Breaks (c ∷ s) = (is_space c || is_delimiter c) ≡ true

abbrev pub nonempty : Bytes → Bool
nonempty [] = false
nonempty (c ∷ s) = true

close_word-emit :
    (cur p : Bytes) (words : List Bytes)
    → close_word (nonempty cur) (cur ++ p) p words ≡ words ++ emit cur
unfolding close_word
close_word-emit [] p words = rw append-nil
close_word-emit (c ∷ cur) p words =
    let n : (length ((c ∷ cur) ++ p) - length p) ≡ length (c ∷ cur) =
      omega (arith, length-append (c ∷ cur) p) in
    rw (n, take-append_length (c ∷ cur) p)

pub nonempty-append : (cur : Bytes) (c : ℕ) → nonempty (cur ++ c ∷ []) ≡ true
nonempty-append [] c = refl
nonempty-append (b ∷ cur) c = refl

words_loop-runs :
    (p cur : Bytes) (words : List Bytes)
    → words_loop p (cur ++ p) (nonempty cur) words ≡ words ++ runs cur p
unfolding words_loop runs
words_loop-runs [] cur words = close_word-emit cur [] words
words_loop-runs (c ∷ p) cur words = elim (Bool-cases (is_space c)) [
  | inl blank ↦
      rw (blank, words_loop, runs, close_word-emit cur (c ∷ p) words)
        (words_loop-runs p [] _ ∙ append_assoc words _ _)
  | inr inside ↦ elim (Bool-cases (is_delimiter c)) [
    | inl delim ↦
        rw (inside, delim, words_loop, runs, close_word-emit cur (c ∷ p) words)
          (words_loop-runs p [] _ ∙ simp append_assoc)
    | inr letter ↦
        rw
          (inside, letter, words_loop, runs, ← nonempty-append cur c, ← append_assoc cur (c ∷ []) p)
          (words_loop-runs p (cur ++ c ∷ []) words)
  ]
]

-- Splitting is the plain recursion `runs`.
pub split_into_words-runs : (s : Bytes) → split_into_words s ≡ runs [] s
unfolding split_into_words
split_into_words-runs s = words_loop-runs s [] []

-- A text can be cut in front of what ends a word.
pub runs-append : (cur s t : Bytes) → Breaks t → runs cur (s ++ t) ≡ runs cur s ++ runs [] t
unfolding runs
runs-append cur [] [] h = sym (append-nil _)
runs-append cur [] (c ∷ t) h = ground arith
runs-append cur (c ∷ s) t h = elim (Bool-cases (is_space c)) [
  | inl blank ↦ rw (blank, runs, runs-append [] s t h) (simp append_assoc)
  | inr inside ↦ elim (Bool-cases (is_delimiter c)) [
    | inl delim ↦ rw (inside, delim, runs, runs-append [] s t h) (simp append_assoc)
    | inr letter ↦ rw (inside, letter, runs) (runs-append (cur ++ c ∷ []) s t h)
  ]
]

-- ... and behind a delimiter.
pub runs_delimiter :
    (s t : Bytes) (c : ℕ)
    → is_delimiter c ≡ true
    → runs [] (s ++ c ∷ t) ≡ runs [] (s ++ c ∷ []) ++ runs [] t
unfolding runs
runs_delimiter s t c h = ground (
  arith,
  runs-append [] s (c ∷ t),
  runs-append [] s (c ∷ []),
  append_assoc (runs [] s) (runs [] (c ∷ [])) (runs [] t),
)

-- A blank between two texts.
pub runs_blank : (s t : Bytes) → runs [] (s ++ 32 ∷ t) ≡ runs [] s ++ runs [] t
runs_blank s t =
    runs-append [] s (32 ∷ t) (unfold is_space in refl)
    ∙ ap (λ r. runs [] s ++ r) (unfold runs is_space in refl)

-- What `join_words` puts behind a word, and the rest, in plain recursion.
pub joined : List Bytes → Bytes
joined [] = []
joined (w ∷ words) = w ++ (word_gap words ++ joined words)

join_words_loop-joined :
    (words : List Bytes) (s : Bytes) → join_words_loop words s ≡ s ++ joined words
unfolding join_words_loop joined
join_words_loop-joined [] s = sym (append-nil s)
join_words_loop-joined (w ∷ words) s = join_words_loop-joined words _ ∙ simp append_assoc

pub join_words-joined : (words : List Bytes) → join_words words ≡ joined words
unfolding join_words
join_words-joined words = join_words_loop-joined words []

gap-Breaks :
    (words : List Bytes)
    → Breaks (word_gap words ++ joined words)
      × (runs [] (word_gap words ++ joined words) ≡ runs [] (joined words))
unfolding word_gap joined
gap-Breaks [] = (tt, refl)
gap-Breaks ([] ∷ words) = unfold is_delimiter is_space runs in (refl, refl)
gap-Breaks ((c ∷ w) ∷ words) = elim (Bool-cases (is_delimiter c)) [
  | inl delim ↦ rw delim (ground arith, refl)
  | inr other ↦ rw other (unfold is_space in refl, unfold is_space runs in refl)
]

-- The words of joined texts are the words of each text: neither a blank left out nor one put in
-- between joins or splits a word.
pub split-join_words :
    (texts : List Bytes) → split_into_words (join_words texts) ≡ flat_map split_into_words texts
unfolding joined flat_map
split-join_words texts =
    split_into_words-runs (join_words texts) ∙ ap (runs []) (join_words-joined texts) ∙ go texts
  where
    go : (ts : List Bytes) → runs [] (joined ts) ≡ flat_map split_into_words ts
    go [] = unfold runs in refl
    go (w ∷ ts) =
        runs-append [] w _ (gap-Breaks ts).0
        ∙ rw ((gap-Breaks ts).1, split_into_words-runs w, go ts)
