-- ===== src/NameServer/Exec/Output.antt =====
-- The pieces in which the output of a program is sent on.
use distributed_concurrent_f.Prelude.{
  ℕ, [], ◌∷◌, ◌++◌, append-nil, append_assoc, Bytes, length, ◌≡◌, ◌∙◌, sym, Bool-cases, inl, inr,
  ◌==◌, ◌||◌,
}
use distributed_concurrent_f.CString.{lines_from}
use distributed_concurrent_f.FileOps.Stream.Laws.{joined, joined-emit}
use distributed_concurrent_f.NameServer.Exec.{output_pieces}

joined-lines_from : (room : ℕ) (text cur : Bytes) → joined (lines_from room text cur) ≡ cur ++ text
unfolding joined lines_from
joined-lines_from room [] cur = joined-emit cur ∙ sym (append-nil cur)
joined-lines_from room (c ∷ s) cur = elim (Bool-cases (c == 10 || length cur == room)) [
  | inl e ↦ rw (e, lines_from) (rw (joined-lines_from room s []) (append_assoc cur (c ∷ []) s))
  | inr e ↦
      rw (e, lines_from) (joined-lines_from room s (cur ++ c ∷ []) ∙ append_assoc cur (c ∷ []) s)
]

-- Nothing of the output is lost.
pub joined-output_pieces : (out : Bytes) → joined (output_pieces out) ≡ out
unfolding output_pieces
joined-output_pieces out = joined-lines_from 1022 out []
