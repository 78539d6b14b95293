-- ===== src/CString/Fields.antt =====
-- `split_string` of common/common.c takes a text apart into the fields that it was put together from.
use distributed_concurrent_f.Prelude.{
  ℕ, true, false, List, [], ◌∷◌, ◌++◌, append-nil, append_assoc, ◌≡◌, ◌≢◌, ◌∙◌, refl, arith, Bytes,
  ◌==◌, All, All-append,
}
use distributed_concurrent_f.CString.{emit, tokens_from, split_string}

-- The byte does not occur.
abbrev pub Free : ℕ → Bytes → Type 0
Free d = All (λ c. (c == d) ≡ false)

-- A field that survives: not empty, and without the delimiter.
abbrev pub IsField : ℕ → Bytes → Type 0
IsField d w = (w ≢ []) × Free d w

-- The fields with the delimiter between them.
abbrev pub fields : ℕ → Bytes → List Bytes → Bytes
fields d w [] = w
fields d w (v ∷ ws) = w ++ d ∷ fields d v ws

grown : (cur : Bytes) (c : ℕ) → cur ++ c ∷ [] ≢ []
grown [] c e = cc
grown (b ∷ cur) c e = cc

emit-full : (w : Bytes) → w ≢ [] → emit w ≡ w ∷ []
emit-full [] h = absurd (h refl)
emit-full (c ∷ w) h = refl

tokens_last : (d : ℕ) (w cur : Bytes) → Free d w → tokens_from d w cur ≡ emit (cur ++ w)
unfolding tokens_from
tokens_last d [] cur h = rw append-nil
tokens_last d (c ∷ w) cur h =
    rw (h.0, tokens_from) (tokens_last d w (cur ++ c ∷ []) h.1 ∙ rw append_assoc)

tokens_step :
    (d : ℕ) (w s cur : Bytes)
    → Free d w
    → tokens_from d (w ++ d ∷ s) cur ≡ emit (cur ++ w) ++ tokens_from d s []
unfolding tokens_from
tokens_step d [] s cur h =
    let e : (d == d) ≡ true = ground arith in rw (e, tokens_from, append-nil) refl
tokens_step d (c ∷ w) s cur h =
    rw (h.0, tokens_from) (tokens_step d w s (cur ++ c ∷ []) h.1 ∙ rw append_assoc refl)

-- A field in front is the first token.
pub split_string-cons :
    (d : ℕ) (w s : Bytes) → IsField d w → split_string (w ++ d ∷ s) d ≡ w ∷ split_string s d
unfolding split_string
split_string-cons d w s h = tokens_step d w s [] h.1 ∙ rw (emit-full w h.0)

pub split_string-last : (d : ℕ) (w : Bytes) → IsField d w → split_string w d ≡ w ∷ []
unfolding split_string
split_string-last d w h = tokens_last d w [] h.1 ∙ emit-full w h.0

-- The fields of a text come back, in order.
pub split_string-fields :
    (d : ℕ) (w : Bytes) (ws : List Bytes)
    → IsField d w
    → All (IsField d) ws
    → split_string (fields d w ws) d ≡ w ∷ ws
split_string-fields d w [] h hs = split_string-last d w h
split_string-fields d w (v ∷ ws) h hs =
    split_string-cons d w (fields d v ws) h ∙ rw (split_string-fields d v ws hs.0 hs.1)

-- An empty field is none: the delimiter in front of a text is passed over.
pub split_string-delimiter : (d : ℕ) (s : Bytes) → split_string (d ∷ s) d ≡ split_string s d
unfolding split_string tokens_from
split_string-delimiter d s = let e : (d == d) ≡ true = ground arith in rw (e, tokens_from) refl

-- What holds of the delimiter and of every byte of the fields holds of every byte of the text.
pub fields-All {κ} :
    (P : ℕ → Type κ) (d : ℕ) (w : Bytes) (ws : List Bytes)
    → P d
    → All P w
    → All (All P) ws
    → All P (fields d w ws)
fields-All P d w [] hd h hs = h
fields-All P d w (v ∷ ws) hd h hs = All-append P w _ h (hd, fields-All P d v ws hd hs.0 hs.1)
