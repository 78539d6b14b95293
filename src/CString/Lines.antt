-- ===== src/CString/Lines.antt =====
-- `fgets` and `trim_newline` take a text apart into the lines that it was put together from.
use distributed_concurrent_f.Prelude.{
  ◌+◌, ◌≤◌, false, ◌||◌, List, [], ◌∷◌, ◌++◌, append-nil, append_assoc, ◌≡◌, ◌∙◌, refl, arith,
  Bytes, ◌==◌, All, length, length-append,
}
use mathlib.Core.List.{map}
use distributed_concurrent_f.CString.{trim_newline, lines_from, fgets_lines}

-- A line that survives: it has no end of line in it, and fits the buffer with its newline.
abbrev pub IsLine : Bytes → Type 0
IsLine w = All (λ c. (c == 13 || c == 10) ≡ false) w × (length w ≤ 4094)

-- The lines, each with a newline behind it.
unfoldable pub unlines : List Bytes → Bytes
unlines [] = []
unlines (w ∷ ws) = w ++ 10 ∷ unlines ws

lines_step :
    (w s cur : Bytes)
    → All (λ c. (c == 13 || c == 10) ≡ false) w
    → length cur + length w ≤ 4094
    → lines_from 4094 (w ++ 10 ∷ s) cur ≡ ((cur ++ w) ++ 10 ∷ []) ∷ lines_from 4094 s []
unfolding lines_from
lines_step [] s cur h fits = rw append-nil
lines_step (c ∷ w) s cur h fits =
    let more : (c == 10 || length cur == 4094) ≡ false = ground (arith, h.0) in
    let n : length (cur ++ c ∷ []) ≡ length cur + 1 = omega (arith, length-append cur (c ∷ [])) in
    rw (more, lines_from)
      (lines_step w s (cur ++ c ∷ []) h.1 (omega (arith, n)) ∙ simp append_assoc)

-- The pieces that `fgets` returns are the lines with their newlines.
pub fgets_lines-unlines :
    (ws : List Bytes) → All IsLine ws → fgets_lines (unlines ws) ≡ map (λ w. w ++ 10 ∷ []) ws
unfolding fgets_lines unlines
fgets_lines-unlines [] h = refl
fgets_lines-unlines (w ∷ ws) h =
    lines_step w (unlines ws) [] h.0.0 (omega (arith, h.0.1)) ∙ rw (fgets_lines-unlines ws h.1)

pub trim_newline_line :
    (w : Bytes) → All (λ c. (c == 13 || c == 10) ≡ false) w → trim_newline (w ++ 10 ∷ []) ≡ w
unfolding trim_newline
trim_newline_line [] h = refl
trim_newline_line (c ∷ w) h = rw (h.0, trim_newline) (rw (trim_newline_line w h.1) refl)
