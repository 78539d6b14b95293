-- ===== src/FileParser/Update.antt =====
-- `apply_single_update` of storage_server/file_parser.c: which updates it refuses, and what an
-- accepted one does to the words of the whole file.
use mathlib.Core.List.{flat_map}
use distributed_concurrent_f.Prelude.{
  ℕ, suc, ◌≤◌, ◌<◌, List, [], ◌∷◌, ◌++◌, append_assoc, ◌≡◌, ◌↔◌, refl, arith, Bytes, ◌==◌, length,
  take, drop, set, get_or, set-take-drop, Bool-cases, inl, inr, ◌∙◌, ap, some, none, ℤ, pos, negsuc,
}
use native.Mathlib.Decide.{dec_lt}
use distributed_concurrent_f.FileParser.{
  split_into_words, split_into_sentences, join_sentences, insert_words, open_sentence, rejoin,
  update_opened, apply_single_update,
}
use distributed_concurrent_f.FileParser.Insert.{flat_map-append, insert_words-words}
use distributed_concurrent_f.FileParser.Join.{words-join_sentences, words-split_into_sentences}
use distributed_concurrent_f.FileParser.Reparse.{split_into_sentences-Parsed, split-join_sentences}

-- The words of a list of sentences.
abbrev pub words_of : List Bytes → List Bytes
words_of = flat_map split_into_words

-- The words of the sentence with index `n`; a sentence that is not there has none.
abbrev pub words_at : Bytes → ℕ → List Bytes
words_at content n = split_into_words (get_or (split_into_sentences content) n [])

words-rejoin : (ss : List Bytes) → split_into_words (rejoin ss) ≡ words_of ss
unfolding rejoin
words-rejoin ss = rw (words-join_sentences, words-split_into_sentences, words-join_sentences)

-- Joining and parsing once more reaches a text that joining and parsing leaves alone.
rejoin_stable : (ss : List Bytes) → join_sentences (split_into_sentences (rejoin ss)) ≡ rejoin ss
unfolding rejoin
rejoin_stable ss = ap join_sentences (split-join_sentences _ (split_into_sentences-Parsed _))

module _ {ℓ} {A : Type ℓ} where
  set_last : (xs : List A) (a v : A) → set (xs ++ a ∷ []) (length xs) v ≡ xs ++ v ∷ []
  set_last [] a v = refl
  set_last (x ∷ xs) a v = rw (set_last xs a v)

  get_or_last : (xs : List A) (a d : A) → get_or (xs ++ a ∷ []) (length xs) d ≡ a
  get_or_last [] a d = refl
  get_or_last (x ∷ xs) a d = get_or_last xs a d

  get_or_out : (xs : List A) (d : A) → get_or xs (length xs) d ≡ d
  get_or_out [] d = refl
  get_or_out (x ∷ xs) d = get_or_out xs d

  take-length : (xs : List A) → take (length xs) xs ≡ xs
  take-length [] = refl
  take-length (x ∷ xs) = rw (take-length xs)

  drop-length : (xs : List A) → drop (suc (length xs)) xs ≡ []
  drop-length [] = refl
  drop-length (x ∷ xs) = drop-length xs

-- What an accepted sentence index opens.
open_sentence-some :
    (ss : List Bytes) (n : ℕ)
    → n ≤ length ss
    → (o : List Bytes) × (open_sentence ss n ≡ some o)
      × (get_or o n [] ≡ get_or ss n [])
      × ((v : Bytes) → set o n v ≡ take n ss ++ v ∷ drop (suc n) ss)
unfolding open_sentence
open_sentence-some ss n h = elim (Bool-cases (n == length ss)) [
  | inl end ↦
      let e : n ≡ length ss = ground arith in
      (
        ss ++ [] ∷ [],
        ground arith,
        rw (e, get_or_last ss [] [], get_or_out ss []),
        λ v. rw (e, set_last ss [] v, take-length ss, drop-length ss),
      )
  | inr more ↦
      let lt : n < length ss = ground arith in
      (ss, ground arith, refl, λ v. set-take-drop ss n v lt)
]

-- The indices that name a place of the file: a sentence or the one behind the last, and a word of
-- it or the place behind its last word.
abbrev pub InRange : Bytes → ℤ → ℤ → Type 0
InRange content (negsuc n) word_idx = ⊥
InRange content (pos n) (negsuc i) = ⊥
InRange content (pos n) (pos i) =
    (n ≤ length (split_into_sentences content)) × (i ≤ length (words_at content n))

-- The result of an update at indices in range.
pub record Inserted (content : Bytes) (n i : ℕ) (new r : Bytes) : Type 0 where
  pub words :
      split_into_words r
      ≡ words_of (take n (split_into_sentences content))
        ++ take i (words_at content n)
        ++ split_into_words new
        ++ drop i (words_at content n)
        ++ words_of (drop (suc n) (split_into_sentences content))
  pub stable : join_sentences (split_into_sentences r) ≡ r

-- At indices in range an update succeeds. The words of the file are then those before, with the words
-- of the new text put in at the place, and the text is one that parsing and joining leaves alone.
pub apply_single_update-Inserted :
    (content : Bytes) (n i : ℕ) (new : Bytes)
    → InRange content (pos n) (pos i)
    → (r : Bytes) × (apply_single_update content (pos n) (pos i) new ≡ some r)
      × Inserted content n i new r
unfolding apply_single_update flat_map
apply_single_update-Inserted content n i new h =
    let ss = split_into_sentences content in
    let (o, opened, at_n, put) = open_sentence-some ss n h.0 in
    let (s, inserted, words) = insert_words-words (get_or ss n []) i new h.1 in
    (
      rejoin (set o n s),
      rw (opened, update_opened, at_n, inserted),
      record {
        words =
            words-rejoin _
            ∙ rw (put s, flat_map-append split_into_words (take n ss), words) (simp append_assoc);
        stable = rejoin_stable _;
      },
    )

refused :
    (content : Bytes) (n : ℕ) (word_idx : ℤ) (new : Bytes) (o : List Bytes)
    → open_sentence (split_into_sentences content) n ≡ some o
    → insert_words (get_or o n []) word_idx new ≡ none
    → apply_single_update content (pos n) word_idx new ≡ none
unfolding apply_single_update
refused content n word_idx new o e f = rw (e, update_opened, f)

insert_words-none :
    (s new : Bytes) (i : ℕ) → length (split_into_words s) < i → insert_words s (pos i) new ≡ none
unfolding insert_words
insert_words-none s new i h = ground arith

refused_sentence :
    (content : Bytes) (n : ℕ) (word_idx : ℤ) (new : Bytes)
    → length (split_into_sentences content) < n
    → apply_single_update content (pos n) word_idx new ≡ none
unfolding apply_single_update open_sentence
refused_sentence content n word_idx new h = ground arith

-- The update is refused exactly if the indices name no place.
pub apply_single_update-eq-none :
    (content : Bytes) (sent_num word_idx : ℤ) (new : Bytes)
    → (apply_single_update content sent_num word_idx new ≡ none)
      ↔ (¬ InRange content sent_num word_idx)
apply_single_update-eq-none content (negsuc n) word_idx new =
    (λ _ h. h, λ _. unfold apply_single_update in refl)
apply_single_update-eq-none content (pos n) (negsuc i) new = (
  λ _ h. h,
  λ _. elim (dec_lt (length (split_into_sentences content)) n) [
    | yes out ↦ refused_sentence content n (negsuc i) new out
    | no within ↦
        let (o, opened, _, _) = open_sentence-some (split_into_sentences content) n (omega arith) in
        refused content n (negsuc i) new o opened (unfold insert_words in refl)
  ],
)
apply_single_update-eq-none content (pos n) (pos i) new = (
  λ e h. let (r, f, _) = apply_single_update-Inserted content n i new h in cc,
  λ bad. elim (dec_lt (length (split_into_sentences content)) n) [
    | yes out ↦ refused_sentence content n (pos i) new out
    | no within ↦
        let (o, opened, at_n, _) =
          open_sentence-some (split_into_sentences content) n (omega arith) in
        elim (dec_lt (length (words_at content n)) i) [
          | yes out ↦
              refused content n (pos i) new o opened (rw at_n (insert_words-none _ new i out))
          | no inside ↦ absurd (bad (omega arith, omega arith))
        ]
  ],
)
