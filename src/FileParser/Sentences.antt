-- ===== src/FileParser/Sentences.antt =====
-- `split_into_sentences` and `join_sentences` of storage_server/file_parser.c.
use distributed_concurrent_f.Prelude.{
  ℕ, ◌-◌, Bool, true, false, ◌&&◌, List, [], ◌∷◌, ◌++◌, append-nil, append_assoc, ◌≡◌, sym, arith,
  Bytes, length, take, take-append_length, length-append, Bool-cases, inl, inr, ◌∙◌,
}
use distributed_concurrent_f.CString.{is_space, skip_spaces, emit}
use distributed_concurrent_f.FileParser.{is_delimiter, sentences_loop, split_into_sentences}

-- The sentences of a text behind the part `cur` of a sentence. After a delimiter (`fresh`) white
-- space is passed over.
unfoldable pub chunks : Bool → Bytes → Bytes → List Bytes
chunks fresh cur [] = emit cur
chunks fresh cur (c ∷ s) = elim (is_delimiter c) [
  | true ↦ (cur ++ c ∷ []) ∷ chunks true [] s
  | false ↦ elim (fresh && is_space c) [
    | true ↦ chunks true [] s
    | false ↦ chunks false (cur ++ c ∷ []) s
  ]
]

space_not_delimiter : (c : ℕ) → is_space c ≡ true → is_delimiter c ≡ false
unfolding is_space is_delimiter
space_not_delimiter c h = ground arith

-- The text from `start` to a delimiter.
piece :
    (cur p : Bytes) (c : ℕ) → take (length (cur ++ c ∷ p) - length p) (cur ++ c ∷ p) ≡ cur ++ c ∷ []
piece cur p c =
    let n : (length (cur ++ c ∷ p) - length p) ≡ length (cur ++ c ∷ []) =
      omega (arith, length-append cur (c ∷ p), length-append cur (c ∷ [])) in
    rw (n, ← append_assoc cur (c ∷ []) p) (take-append_length (cur ++ c ∷ []) p)

emit-loop : (cur : Bytes) (out : List Bytes) → sentences_loop [] (cur ++ []) out ≡ out ++ emit cur
unfolding sentences_loop
emit-loop [] out = sym (append-nil out)
emit-loop (c ∷ cur) out = ground (arith, take-append_length (c ∷ cur) [], append-nil cur)

mutual
  unfolding sentences_loop chunks skip_spaces

  loop-chunks :
      (p cur : Bytes) (out : List Bytes)
      → sentences_loop p (cur ++ p) out ≡ out ++ chunks false cur p
  loop-chunks [] cur out = emit-loop cur out
  loop-chunks (c ∷ p) cur out = elim (Bool-cases (is_delimiter c)) [
    | inl delim ↦
        rw (delim, sentences_loop, chunks, piece cur p c) (fresh-chunks p _ ∙ append_assoc out _ _)
    | inr other ↦
        rw (other, sentences_loop, chunks, ← append_assoc cur (c ∷ []) p)
          (loop-chunks p (cur ++ c ∷ []) out)
  ]

  fresh-chunks :
      (p : Bytes) (out : List Bytes)
      → sentences_loop p (skip_spaces p) out ≡ out ++ chunks true [] p
  fresh-chunks [] out = emit-loop [] out
  fresh-chunks (c ∷ p) out = elim (Bool-cases (is_space c)) [
    | inl blank ↦
        rw (space_not_delimiter c blank, blank, skip_spaces, sentences_loop, chunks)
          (fresh-chunks p out)
    | inr ink ↦ elim (Bool-cases (is_delimiter c)) [
      | inl delim ↦
          rw (delim, ink, skip_spaces, sentences_loop, chunks, piece [] p c)
            (fresh-chunks p _ ∙ append_assoc out _ _)
      | inr other ↦
          rw (other, ink, skip_spaces, sentences_loop, chunks) (loop-chunks p (c ∷ []) out)
    ]
  ]

-- Splitting is the plain recursion `chunks`.
pub split_into_sentences-chunks : (s : Bytes) → split_into_sentences s ≡ chunks false [] s
unfolding split_into_sentences
split_into_sentences-chunks s = loop-chunks s [] []
