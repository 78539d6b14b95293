-- ===== src/FileOps/Range.antt =====
-- The sentence indices at which a WRITE of storage_server/file_ops.c may start.
use mathlib.Core.List.{reverse, reverse-cons, reverse-append}
use distributed_concurrent_f.Prelude.{
  ℕ, suc, ◌+◌, ◌-◌, Bool, true, false, not, ◌&&◌, List, [], ◌∷◌, ◌++◌, ◌≡◌, ◌∙◌, refl, ap, arith,
  Bytes, ℤ, pos, negsuc, leb, ltb, length, get_or, All, All-append, Bool-cases, inl, inr,
  if◌then◌else◌,
}
use distributed_concurrent_f.CString.{is_space, skip_spaces}
use distributed_concurrent_f.FileParser.{is_delimiter, first_char, split_into_sentences}
use distributed_concurrent_f.FileParser.Sentences.{chunks, split_into_sentences-chunks}
use distributed_concurrent_f.FileParser.Reparse.{
  IsPlain, Parsed, done, last, more, split_into_sentences-Parsed, delimiter_not_space,
}
use distributed_concurrent_f.FileOps.{last_char, max_valid_index, out_of_range}

-- How many delimiters a text holds.
unfoldable pub delimiters : Bytes → ℕ
delimiters [] = 0
delimiters (c ∷ s) = (if is_delimiter c then 1 else 0) + delimiters s

-- The indices from 0 up to that number.
unfoldable pub admits : Bytes → ℤ → Bool
admits text (negsuc n) = false
admits text (pos n) = leb n (delimiters text)

all_delimiters : List Bytes → ℕ
all_delimiters [] = 0
all_delimiters (s ∷ ss) = delimiters s + all_delimiters ss

delimiters-append : (s t : Bytes) → delimiters (s ++ t) ≡ delimiters s + delimiters t
unfolding delimiters
delimiters-append [] t = omega arith
delimiters-append (c ∷ s) t = omega (arith, delimiters-append s t)

-- No delimiter is lost between the sentences.
all_delimiters-chunks :
    (s : Bytes) (fresh : Bool) (cur : Bytes)
    → (fresh ≡ true → cur ≡ [])
    → all_delimiters (chunks fresh cur s) ≡ delimiters cur + delimiters s
unfolding chunks all_delimiters delimiters
all_delimiters-chunks [] fresh [] start = refl
all_delimiters-chunks [] fresh (c ∷ cur) start = omega arith
all_delimiters-chunks (c ∷ s) fresh cur start = elim (Bool-cases (is_delimiter c)) [
  | inl delim ↦
      rw (delim, chunks)
        (ground (
          arith,
          delim,
          delimiters-append cur (c ∷ []),
          all_delimiters-chunks s true [] (λ e. refl),
        ))
  | inr other ↦ elim (Bool-cases (fresh && is_space c)) [
    | inl pass ↦
        rw (other, chunks, pass)
          (let none_yet : delimiters cur ≡ 0 = ap delimiters (start (ground (arith, pass))) in
            omega (arith, none_yet, all_delimiters-chunks s true [] (λ e. refl)))
    | inr keep ↦
        rw (other, chunks, keep)
          (ground (
            arith,
            other,
            delimiters-append cur (c ∷ []),
            all_delimiters-chunks s false (cur ++ c ∷ []) (λ e. absurd cc),
          ))
  ]
]

plain_delimiters : (s : Bytes) → All IsPlain s → delimiters s ≡ 0
unfolding delimiters
plain_delimiters [] h = refl
plain_delimiters (c ∷ s) h = ground (arith, h.0, plain_delimiters s h.1)

reverse-IsPlain : (s : Bytes) → All IsPlain s → All IsPlain (reverse s)
reverse-IsPlain [] h = tt
reverse-IsPlain (c ∷ s) h =
    rw reverse-cons (All-append IsPlain (reverse s) (c ∷ []) (reverse-IsPlain s h.1) (h.0, tt))

plain_first : (s : Bytes) → All IsPlain s → is_delimiter (first_char (skip_spaces s)) ≡ false
unfolding skip_spaces is_delimiter
plain_first [] h = refl
plain_first (c ∷ s) h = elim (Bool-cases (is_space c)) [
  | inl blank ↦ rw (blank, skip_spaces) (plain_first s h.1)
  | inr ink ↦ rw (ink, skip_spaces) h.0
]

skip_ink : (d : ℕ) (s : Bytes) → is_space d ≡ false → first_char (skip_spaces (d ∷ s)) ≡ d
unfolding skip_spaces
skip_ink d s h = rw (h, skip_spaces) refl

closed_last : (body : Bytes) (d : ℕ) → is_delimiter d ≡ true → last_char (body ++ d ∷ []) ≡ d
unfolding last_char
closed_last body d h =
    ap (λ r. first_char (skip_spaces r)) (reverse-append body (d ∷ []))
    ∙ skip_ink d (reverse body) (delimiter_not_space d h)

-- `max_valid_index` on the sentences.
last_index : List Bytes → ℕ
last_index ss =
    if is_delimiter (last_char (get_or ss (length ss - 1) [])) then length ss else length ss - 1

last_index-more :
    (s t : Bytes) (ss : List Bytes) → last_index (s ∷ t ∷ ss) ≡ 1 + last_index (t ∷ ss)
unfolding last_index
last_index-more s t ss =
    let e : length (s ∷ t ∷ ss) - 1 ≡ suc (length (t ∷ ss) - 1) = omega arith in
    rw e (elim (Bool-cases (is_delimiter (last_char (get_or (t ∷ ss) (length (t ∷ ss) - 1) [])))) [
      | inl whole ↦ rw whole (omega arith)
      | inr open_end ↦ rw open_end (omega arith)
    ])

last_index-Parsed :
    {fresh : Bool} {ss : List Bytes} → Parsed fresh ss → last_index ss ≡ all_delimiters ss
unfolding last_index all_delimiters last_char delimiters is_delimiter skip_spaces
last_index-Parsed done = refl
last_index-Parsed (last {s} h n ink) =
    ground (arith, plain_first (reverse s) (reverse-IsPlain s h), plain_delimiters s h)
last_index-Parsed (more {s} {ss = []} body d e h delim ink rest) = ground (
  arith,
  ap last_char e ∙ closed_last body d delim,
  ap delimiters e ∙ delimiters-append body (d ∷ []),
  plain_delimiters body h,
  delim,
)
last_index-Parsed (more {s} {ss = t ∷ ss} body d e h delim ink rest) =
    let here : delimiters s ≡ 1 =
      ground (
        arith,
        ap delimiters e ∙ delimiters-append body (d ∷ []),
        plain_delimiters body h,
        delim,
      ) in
    omega (arith, here, last_index-more s t ss, last_index-Parsed rest)

max_index : (text : Bytes) → max_valid_index text ≡ last_index (split_into_sentences text)
unfolding max_valid_index last_index
max_index text =
    let ss = split_into_sentences text in
    elim (Bool-cases (ltb 0 (length ss))) [
      | inl some_there ↦ rw some_there refl
      | inr none_there ↦
          rw none_there
            (elim (Bool-cases (is_delimiter (last_char (get_or ss (length ss - 1) [])))) [
              | inl whole ↦ rw whole refl
              | inr open_end ↦ rw open_end (ground (arith, none_there))
            ])
    ]

-- The last index that is accepted is the number of delimiters.
pub max_valid_index-eq : (text : Bytes) → max_valid_index text ≡ delimiters text
unfolding last_index delimiters
max_valid_index-eq text = omega (
  arith,
  max_index text,
  last_index-Parsed (split_into_sentences-Parsed text),
  ap all_delimiters (split_into_sentences-chunks text),
  all_delimiters-chunks text false [] (λ e. absurd cc),
)

pub out_of_range-eq :
    (text : Bytes) (n : ℤ) → not (out_of_range n (max_valid_index text)) ≡ admits text n
unfolding admits out_of_range
out_of_range-eq text (negsuc n) = refl
out_of_range-eq text (pos n) = rw max_valid_index-eq (ground arith)
