-- ===== src/FileOps/Stream/Laws.antt =====
-- What a client sees of a file that is streamed.
use distributed_concurrent_f.Prelude.{
  ℕ, ◌+◌, ◌≤◌, Bool, true, false, not, ◌&&◌, List, [], ◌∷◌, ◌++◌, append-nil, append_assoc,
  length-append, ◌≡◌, ◌≢◌, ◌∙◌, refl, sym, arith, Bytes, ltb, ◌==◌, length, All, All-append, some,
  Bool-cases, inl, inr,
}
use distributed_concurrent_f.CString.{emit}
use distributed_concurrent_f.Common.{eof}
use distributed_concurrent_f.StorageServer.{StorageServer}
use distributed_concurrent_f.UndoHandler.{FileSystem}
use distributed_concurrent_f.FileOps.{file_path}
use distributed_concurrent_f.FileOps.Stream.{is_break, stream_loop, handle_ss_stream}

-- The messages one behind the other, as the client prints them.
unfoldable pub joined : List Bytes → Bytes
joined [] = []
joined (w ∷ ws) = w ++ joined ws

pub joined-append : (l k : List Bytes) → joined (l ++ k) ≡ joined l ++ joined k
unfolding joined
joined-append [] k = refl
joined-append (w ∷ l) k = rw (joined-append l k) (sym (append_assoc w (joined l) (joined k)))

pub joined-emit : (w : Bytes) → joined (emit w) ≡ w
unfolding joined
joined-emit [] = refl
joined-emit (c ∷ w) = append-nil (c ∷ w)

-- No byte 255, and no word longer than its buffer; `n` is the length of the word so far.
unfoldable pub fits_words : Bytes → ℕ → Bool
fits_words [] n = true
fits_words (c ∷ f) n = elim (is_break c) [
  | true ↦ not (c == eof) && fits_words f 0
  | false ↦ not (c == eof) && (ltb n 255 && fits_words f (n + 1))
]

loop-joined :
    (f word : Bytes) → fits_words f (length word) ≡ true → joined (stream_loop f word) ≡ word ++ f
unfolding fits_words stream_loop joined
loop-joined [] word h = joined-emit word ∙ sym (append-nil word)
loop-joined (c ∷ f) word h = elim (Bool-cases (is_break c)) [
  | inl e ↦
      let not_end : (c == eof) ≡ false = ground (arith, e, h) in
      let rest : fits_words f 0 ≡ true = ground (arith, e, h) in
      rw (not_end, e, stream_loop)
        (joined-append (emit word) ((c ∷ []) ∷ stream_loop f [])
          ∙ rw (joined-emit word, joined, loop-joined f [] rest) refl)
  | inr e ↦
      let not_end : (c == eof) ≡ false = ground (arith, e, h) in
      let room : ltb (length word) 255 ≡ true = ground (arith, e, h) in
      let rest : fits_words f (length (word ++ c ∷ [])) ≡ true =
        ground (arith, e, h, length-append word (c ∷ [])) in
      rw (not_end, e, stream_loop, room)
        (loop-joined f (word ++ c ∷ []) rest ∙ append_assoc word (c ∷ []) f)
]

-- A message of STREAM is not empty and fits the buffer.
abbrev IsPiece : Bytes → Type 0
IsPiece w = (w ≢ []) × (length w ≤ 255)

emit-IsPiece : (w : Bytes) → length w ≤ 255 → All IsPiece (emit w)
emit-IsPiece [] h = tt
emit-IsPiece (c ∷ w) h = ((λ (e : (c ∷ w) ≡ []). cc, h), tt)

loop-IsPiece : (f word : Bytes) → length word ≤ 255 → All IsPiece (stream_loop f word)
unfolding stream_loop
loop-IsPiece [] word h = emit-IsPiece word h
loop-IsPiece (c ∷ f) word h = elim (Bool-cases (c == eof)) [
  | inl end ↦ rw (end, stream_loop) (emit-IsPiece word h)
  | inr more ↦ elim (Bool-cases (is_break c)) [
    | inl e ↦
        rw (more, e, stream_loop)
          (All-append IsPiece (emit word) _ (emit-IsPiece word h)
            ((λ (k : c ∷ [] ≡ []). cc, omega arith), loop-IsPiece f [] (omega arith)))
    | inr e ↦ elim (Bool-cases (ltb (length word) 255)) [
      | inl room ↦
          rw (more, e, stream_loop, room)
            (loop-IsPiece f (word ++ c ∷ []) (ground (arith, length-append word (c ∷ []))))
      | inr full ↦ rw (more, e, stream_loop, full) (loop-IsPiece f word h)
    ]
  ]
]

-- The messages that STREAM sends of a file on the storage server are together its text, if the text
-- holds no byte 255 and no word of more than 255 bytes; each of them has between 1 and 255 bytes.
pub stream-joined :
    (ss : StorageServer) (fs : FileSystem) (f text : Bytes)
    → fs.files (file_path ss f) ≡ some text
    → fits_words text 0 ≡ true
    → (l : List Bytes) × (handle_ss_stream ss fs f ≡ some l) × (joined l ≡ text) × All IsPiece l
unfolding handle_ss_stream
stream-joined ss fs f text e h = (
  stream_loop text [],
  rw (e, handle_ss_stream) refl,
  loop-joined text [] h,
  loop-IsPiece text [] (omega arith),
)
