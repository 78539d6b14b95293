-- ===== src/FileParser/Insert.antt =====
-- `insert_words` inside one sentence.
use mathlib.Core.List.{flat_map}
use distributed_concurrent_f.Prelude.{
  ℕ, ◌≤◌, false, ◌||◌, List, [], ◌∷◌, ◌++◌, append-nil, append_assoc, ◌≡◌, refl, sym, arith, Bytes,
  ◌==◌, length, take, drop, All, All-take, All-drop, Bool-cases, inl, inr, ◌∙◌, ap, All-append,
  some, pos,
}
use distributed_concurrent_f.CString.{is_space, split_string, tokens_from, emit}
use distributed_concurrent_f.FileParser.{is_delimiter, split_into_words, insert_words}
use distributed_concurrent_f.FileParser.Words.{
  runs, split_into_words-runs, runs_blank, split-join_words,
}

pub flat_map-append {ℓ κ} :
    {A : Type ℓ} {B : Type κ} (f : A → List B) (xs ys : List A)
    → flat_map f (xs ++ ys) ≡ flat_map f xs ++ flat_map f ys
unfolding flat_map
flat_map-append f [] ys = refl
flat_map-append f (x ∷ xs) ys = rw (flat_map-append f xs ys) (simp append_assoc)

-- The words of the tokens between blanks are the words of the text.
words-emit : (cur : Bytes) → flat_map split_into_words (emit cur) ≡ runs [] cur
unfolding flat_map runs
words-emit [] = refl
words-emit (c ∷ cur) = rw split_into_words-runs (append-nil _)

words-tokens_from :
    (s cur : Bytes) → flat_map split_into_words (tokens_from 32 s cur) ≡ runs [] (cur ++ s)
unfolding tokens_from
words-tokens_from [] cur = words-emit cur ∙ ap (runs []) (sym (append-nil cur))
words-tokens_from (c ∷ s) cur = elim (Bool-cases (c == 32)) [
  | inl blank ↦
      let e : c ≡ 32 = ground arith in
      rw (e, tokens_from, flat_map-append, words-emit cur, words-tokens_from s [])
        (sym (runs_blank cur s))
  | inr other ↦ rw (other, tokens_from, words-tokens_from s (cur ++ c ∷ [])) (simp append_assoc)
]

-- The words of the tokens between blanks are the words of the text.
pub words-split_string :
    (s : Bytes) → flat_map split_into_words (split_string s 32) ≡ split_into_words s
unfolding split_string
words-split_string s = words-tokens_from s [] ∙ sym (split_into_words-runs s)

-- A word has no blank in it, and a delimiter only if that is all of it.
pub IsWord : Bytes → Type 0
IsWord w = split_into_words w ≡ w ∷ []

abbrev IsLetter : ℕ → Type 0
IsLetter c = (is_space c || is_delimiter c) ≡ false

runs-letters : (s cur : Bytes) → All IsLetter s → runs cur s ≡ emit (cur ++ s)
unfolding runs
runs-letters [] cur h = rw append-nil
runs-letters (c ∷ s) cur h =
    ground (arith, runs-letters s (cur ++ c ∷ []) h.1, append_assoc cur (c ∷ []) s)

emit-IsWord : (cur : Bytes) → All IsLetter cur → All IsWord (emit cur)
unfolding IsWord
emit-IsWord [] h = tt
emit-IsWord (c ∷ cur) h = (split_into_words-runs (c ∷ cur) ∙ runs-letters (c ∷ cur) [] h, tt)

runs-IsWord : (s cur : Bytes) → All IsLetter cur → All IsWord (runs cur s)
unfolding runs
runs-IsWord [] cur h = emit-IsWord cur h
runs-IsWord (c ∷ s) cur h = elim (Bool-cases (is_space c)) [
  | inl blank ↦
      rw (blank, runs) (All-append IsWord (emit cur) _ (emit-IsWord cur h) (runs-IsWord s [] tt))
  | inr inside ↦ elim (Bool-cases (is_delimiter c)) [
    | inl delim ↦
        let w : IsWord (c ∷ []) =
          unfold IsWord in split_into_words-runs (c ∷ []) ∙ rw (inside, delim, runs) in
        rw (inside, delim, runs)
          (All-append IsWord (emit cur) _ (emit-IsWord cur h) (w, runs-IsWord s [] tt))
    | inr letter ↦
        rw (inside, letter, runs)
          (runs-IsWord s (cur ++ c ∷ [])
            (All-append IsLetter cur _ h (rw (inside, letter) refl, tt)))
  ]
]

pub split_into_words-IsWord : (s : Bytes) → All IsWord (split_into_words s)
split_into_words-IsWord s = rw split_into_words-runs (runs-IsWord s [] tt)

words_of_words : (ws : List Bytes) → All IsWord ws → flat_map split_into_words ws ≡ ws
unfolding IsWord flat_map
words_of_words [] h = refl
words_of_words (w ∷ ws) h = rw (h.0, words_of_words ws h.1)

-- Inside a sentence, at an index up to the number of its words, the words of the new text go in
-- front of the word with that index, and every other word stays.
pub insert_words-words :
    (s : Bytes) (i : ℕ) (new : Bytes)
    → i ≤ length (split_into_words s)
    → (r : Bytes) × (insert_words s (pos i) new ≡ some r)
      × (split_into_words r
          ≡ take i (split_into_words s) ++ split_into_words new ++ drop i (split_into_words s))
unfolding insert_words
insert_words-words s i new h =
    let ws = split_into_words s in
    let ok = split_into_words-IsWord s in
    (
      _,
      ground arith,
      split-join_words (take i ws ++ split_string new 32 ++ drop i ws)
          ∙ simp (
            flat_map-append,
            words-split_string,
            words_of_words (take i ws) (All-take IsWord i ws ok),
            words_of_words (drop i ws) (All-drop IsWord i ws ok),
          ),
    )
