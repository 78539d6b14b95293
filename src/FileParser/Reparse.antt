-- ===== src/FileParser/Reparse.antt =====
-- The shape of the sentences that storage_server/file_parser.c produces, and what parsing the joined
-- sentences gives.
use distributed_concurrent_f.Prelude.{
  ℕ, Bool, true, false, ◌&&◌, List, [], ◌∷◌, ◌++◌, append-nil, append_assoc, ◌≡◌, ◌≢◌, refl, arith,
  Bytes, All, Bool-cases, inl, inr, ◌∙◌, All-append,
}
use distributed_concurrent_f.CString.{is_space}
use distributed_concurrent_f.FileParser.{
  is_delimiter, split_into_sentences, sentence_gap, join_sentences,
}
use distributed_concurrent_f.FileParser.Sentences.{chunks, split_into_sentences-chunks}
use distributed_concurrent_f.FileParser.Join.{spaced, join_sentences-spaced}

abbrev pub IsPlain : ℕ → Type 0
IsPlain c = is_delimiter c ≡ false

-- The text starts with a byte that is no white space.
abbrev pub StartsInk : Bytes → Type 0
StartsInk [] = ⊥
StartsInk (c ∷ s) = is_space c ≡ false

-- A list of sentences as the parser makes them: each has one delimiter, at its end, but the last may
-- have none, and no sentence is empty. The first is free to start with white space unless the flag
-- is set; the others start with another byte.
pub data Parsed : Bool → List Bytes → Type 0 where
  done : {fresh : Bool} → Parsed fresh []
  last :
      {fresh : Bool} {s : Bytes}
      → All IsPlain s
      → s ≢ []
      → (fresh ≡ true → StartsInk s)
      → Parsed fresh (s ∷ [])
  more :
      {fresh : Bool} {s : Bytes} {ss : List Bytes} (body : Bytes) (d : ℕ)
      → s ≡ body ++ d ∷ []
      → All IsPlain body
      → is_delimiter d ≡ true
      → (fresh ≡ true → StartsInk s)
      → Parsed true ss
      → Parsed fresh (s ∷ ss)

-- The part `cur` of the sentence that is being read, where the sentence began with flag `f`.
abbrev Begun : Bool → Bool → Bytes → Type 0
Begun f fresh [] = fresh ≡ f
Begun f fresh (c ∷ cur) = (fresh ≡ false) × (f ≡ true → is_space c ≡ false)

Begun-ink :
    (f fresh : Bool) (cur : Bytes) (c : ℕ) (t : Bytes)
    → Begun f fresh cur
    → (fresh && is_space c) ≡ false
    → f ≡ true
    → StartsInk ((cur ++ c ∷ []) ++ t)
Begun-ink f fresh [] c t b keep e = ground arith
Begun-ink f fresh (a ∷ cur) c t b keep e = b.1 e

Begun-next :
    (f fresh : Bool) (cur : Bytes) (c : ℕ)
    → Begun f fresh cur
    → (fresh && is_space c) ≡ false
    → Begun f false (cur ++ c ∷ [])
Begun-next f fresh [] c b keep = (refl, λ e. ground arith)
Begun-next f fresh (a ∷ cur) c b keep = (refl, b.1)

Begun-pass : (f fresh : Bool) (cur : Bytes) → Begun f fresh cur → fresh ≡ true → true ≡ f
Begun-pass f fresh [] b e = ground arith
Begun-pass f fresh (a ∷ cur) b e = ground arith

pub delimiter_not_space : (c : ℕ) → is_delimiter c ≡ true → is_space c ≡ false
unfolding is_space is_delimiter
delimiter_not_space c h = ground arith

chunks-Parsed :
    (s : Bytes) (f fresh : Bool) (cur : Bytes)
    → Begun f fresh cur
    → All IsPlain cur
    → Parsed f (chunks fresh cur s)
unfolding chunks
chunks-Parsed [] f fresh [] b h = done
chunks-Parsed [] f fresh (c ∷ cur) b h = last h (λ e. cc) b.1
chunks-Parsed (c ∷ s) f fresh cur b h = elim (Bool-cases (is_delimiter c)) [
  | inl delim ↦
      let keep : (fresh && is_space c) ≡ false = ground (arith, delimiter_not_space c) in
      rw (delim, chunks)
        (more cur c refl h delim (λ e. rw append-nil at (Begun-ink f fresh cur c [] b keep e))
          (chunks-Parsed s true true [] refl tt))
  | inr other ↦ elim (Bool-cases (fresh && is_space c)) [
    | inl pass ↦
        rw (other, chunks, pass)
          (chunks-Parsed s f true [] (Begun-pass f fresh cur b (ground arith)) tt)
    | inr keep ↦
        rw (other, chunks, keep)
          (chunks-Parsed s f false (cur ++ c ∷ []) (Begun-next f fresh cur c b keep)
            (All-append IsPlain cur _ h (other, tt)))
  ]
]

-- The sentences of any text are `Parsed`: none is empty, each ends with its one delimiter, but the
-- last may have none, and all but the first start with a byte that is no white space.
pub split_into_sentences-Parsed : (s : Bytes) → Parsed false (split_into_sentences s)
split_into_sentences-Parsed s =
    rw split_into_sentences-chunks (chunks-Parsed s false false [] refl tt)

-- The bytes before a delimiter, or the end, are read into one sentence.
chunks_plain :
    (body cur t : Bytes)
    → All IsPlain body
    → chunks false cur (body ++ t) ≡ chunks false (cur ++ body) t
unfolding chunks
chunks_plain [] cur t h = rw append-nil
chunks_plain (c ∷ body) cur t h =
    rw (h.0, chunks) (chunks_plain body (cur ++ c ∷ []) t h.1 ∙ rw append_assoc)

chunks_ink :
    (f : Bool) (c : ℕ) (body t : Bytes)
    → All IsPlain (c ∷ body)
    → (f ≡ true → is_space c ≡ false)
    → chunks f [] (c ∷ (body ++ t)) ≡ chunks false (c ∷ body) t
unfolding chunks
chunks_ink false c body t h ink = rw (h.0, chunks) (chunks_plain body (c ∷ []) t h.1)
chunks_ink true c body t h ink = rw (h.0, ink refl, chunks) (chunks_plain body (c ∷ []) t h.1)

chunks_closed :
    (f : Bool) (body : Bytes) (d : ℕ) (t : Bytes)
    → All IsPlain body
    → is_delimiter d ≡ true
    → (f ≡ true → StartsInk (body ++ d ∷ []))
    → chunks f [] (body ++ d ∷ t) ≡ (body ++ d ∷ []) ∷ chunks true [] t
unfolding chunks
chunks_closed f [] d t h e ink = rw (e, chunks)
chunks_closed f (c ∷ body) d t h e ink = rw (chunks_ink f c body (d ∷ t) h ink, e, chunks)

chunks_gap :
    (ss : List Bytes) (t : Bytes) → chunks true [] (sentence_gap ss ++ t) ≡ chunks true [] t
unfolding chunks sentence_gap is_delimiter is_space
chunks_gap [] t = refl
chunks_gap (s ∷ ss) t = ground arith

chunks-spaced : {f : Bool} {ss : List Bytes} → Parsed f ss → chunks f [] (spaced ss) ≡ ss
unfolding chunks spaced sentence_gap
chunks-spaced done = refl
chunks-spaced {f} (last {s = []} h n ink) = absurd (n refl)
chunks-spaced {f} (last {s = c ∷ s} h n ink) = chunks_ink f c s [] h ink
chunks-spaced {f} (more {s} {ss} body d e h delim ink rest) = rw (
  e,
  append_assoc body (d ∷ []) (sentence_gap ss ++ spaced ss),
  chunks_closed f body d (sentence_gap ss ++ spaced ss) h delim (rw e at ink),
  chunks_gap,
  chunks-spaced rest,
)

-- A list of sentences that is `Parsed` comes back when it is joined and split.
pub split-join_sentences :
    (ss : List Bytes) → Parsed false ss → split_into_sentences (join_sentences ss) ≡ ss
split-join_sentences ss h =
    rw (split_into_sentences-chunks, join_sentences-spaced) (chunks-spaced h)
