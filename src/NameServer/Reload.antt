-- ===== src/NameServer/Reload.antt =====
-- What the name server knows after it has been ended and started again.
use mathlib.Core.List.{map}
use distributed_concurrent_f.Prelude.{
  ℕ, zero, suc, ◌+◌, ◌<◌, true, false, ◌&&◌, List, [], ◌∷◌, ◌++◌, ◌≡◌, ◌≢◌, ◌∙◌, refl, arith,
  Option, none, some, Option-cases, Bool-cases, inl, inr, Bytes, ℤ, str_eq_iff, ◌==◌, ltb, leb, All,
  if◌then◌else◌,
}
use distributed_concurrent_f.HashTable.{HashTable, ht_size, hash_function, ht_get, ht_insert}
use distributed_concurrent_f.HashTable.Chain.{FileMetadata, chain_find, has_file, is_unique}
use distributed_concurrent_f.HashTable.Laws.{IsTable, get-insert}
use distributed_concurrent_f.Persistence.{file_line, file_lines}
use distributed_concurrent_f.Persistence.Line.{IsSaved}
use distributed_concurrent_f.Persistence.Survives.{survives, survives_name, load_line-survives}
use distributed_concurrent_f.NameServer.{NameServer, files_from, all_files}
use distributed_concurrent_f.NameServer.Restart.{load_file, load_files}

-- The files whose lines are read back.
unfoldable pub survivors : ℤ → List FileMetadata → List FileMetadata
survivors now [] = []
survivors now (m ∷ l) = elim (survives now m) [
  | none ↦ survivors now l
  | some k ↦ k ∷ survivors now l
]

find-survivors-none :
    (now : ℤ) (q : Bytes) (l : List FileMetadata)
    → has_file q l ≡ false
    → chain_find q (survivors now l) ≡ none
unfolding survivors has_file chain_find
find-survivors-none now q [] h = refl
find-survivors-none now q (m ∷ l) h = elim (Option-cases (survives now m)) [
  | inl e ↦ ground (arith, e, find-survivors-none now q l)
  | inr (k, e) ↦ ground (arith, e, find-survivors-none now q l, survives_name now m k e)
]

abbrev pub kept : ℤ → Option FileMetadata → Option FileMetadata
kept now none = none
kept now (some m) = survives now m

-- In a chain with no name twice, what is left of a file does not hang on the others.
find-survivors :
    (now : ℤ) (q : Bytes) (l : List FileMetadata)
    → is_unique l ≡ true
    → chain_find q (survivors now l) ≡ kept now (chain_find q l)
unfolding survivors is_unique chain_find
find-survivors now q [] u = refl
find-survivors now q (m ∷ l) u = elim (Option-cases (survives now m)) [
  | inl e ↦ ground (
    arith,
    e,
    find-survivors now q l,
    find-survivors-none now m.filename l,
    str_eq_iff m.filename q,
  )
  | inr (k, e) ↦ ground (arith, e, find-survivors now q l, survives_name now m k e)
]

survivors-append :
    (now : ℤ) (l k : List FileMetadata)
    → survivors now (l ++ k) ≡ survivors now l ++ survivors now k
unfolding survivors
survivors-append now [] k = refl
survivors-append now (m ∷ l) k = elim (Option-cases (survives now m)) [
  | inl e ↦ ground (arith, e, survivors-append now l k)
  | inr (n, e) ↦ ground (arith, e, survivors-append now l k)
]

-- The first of two results.
abbrev pub first : Option FileMetadata → Option FileMetadata → Option FileMetadata
first none b = b
first (some m) b = some m

find-append :
    (q : Bytes) (l k : List FileMetadata)
    → chain_find q (l ++ k) ≡ first (chain_find q l) (chain_find q k)
unfolding chain_find
find-append q [] k = refl
find-append q (m ∷ l) k = ground (arith, find-append q l k)

-- A name that hashes elsewhere is not in the chain.
find-elsewhere :
    (now : ℤ) (t : HashTable) (q : Bytes) (i : ℕ)
    → IsTable t
    → hash_function q ≢ i
    → chain_find q (survivors now (t i)) ≡ none
find-elsewhere now t q i v ne = elim (Bool-cases (has_file q (t i))) [
  | inl here ↦ absurd (ne (v.placed i q here))
  | inr out ↦ find-survivors-none now q (t i) out
]

find-files_from :
    (now : ℤ) (t : HashTable) (q : Bytes) (n i : ℕ)
    → IsTable t
    → chain_find q (survivors now (files_from n i t)) ≡ (
        if leb i (hash_function q) && ltb (hash_function q) (i + n)
        then kept now (ht_get t q)
        else none)
unfolding files_from ht_get
find-files_from now t q zero i v = unfold survivors chain_find in ground arith
find-files_from now t q (suc n) i v =
    let rest = find-files_from now t q n (i + 1) v in
    rw (survivors-append, find-append)
      (elim (Bool-cases (hash_function q == i)) [
        | inl here ↦
            let e : hash_function q ≡ i = ground arith in
            ground (arith, rest, e, find-survivors now q (t i) (v.unique i))
        | inr elsewhere ↦ ground (arith, rest, find-elsewhere now t q i v (ground arith))
      ])

pub hash_lt : (q : Bytes) → hash_function q < ht_size
unfolding hash_function
hash_lt q = omega arith

-- Among all files of the table the one that is found is that of its bucket.
pub find-all_files :
    (now : ℤ) (t : HashTable) (q : Bytes)
    → IsTable t
    → chain_find q (survivors now (all_files t)) ≡ kept now (ht_get t q)
unfolding all_files
find-all_files now t q v = find-files_from now t q ht_size 0 v ∙ ground (arith, hash_lt q)

abbrev pub ended : List FileMetadata → List Bytes
ended l = map (λ w. w ++ 10 ∷ []) (file_lines l)

abbrev line_of : FileMetadata → Bytes
line_of m = file_line m ++ 10 ∷ []

-- Every line in turn: a name that the table has keeps its entry.
pub get-load_files :
    (now : ℤ) (nm : NameServer) (l : List FileMetadata) (q : Bytes)
    → All IsSaved l
    → ht_get (load_files now nm (ended l)).file_table q
      ≡ first (ht_get nm.file_table q) (chain_find q (survivors now l))
unfolding load_files survivors file_lines chain_find
get-load_files now nm [] q h = ground (arith)
get-load_files now nm (m ∷ l) q h =
    let nm' = load_file now nm (line_of m) in
    get-load_files now nm' l q h.1 ∙ elim (Option-cases (survives now m)) [
      | inl e ↦
          let same : nm' ≡ nm = rw (load_line-survives now m h.0, e, load_file) refl in
          ground (arith, e, same)
      | inr (k, e) ↦
          let same : nm'.file_table ≡ (ht_insert nm.file_table k).1 =
            rw (load_line-survives now m h.0, e, load_file) refl in
          ground (
            arith,
            e,
            same,
            get-insert nm.file_table k q,
            str_eq_iff q k.filename,
            str_eq_iff k.filename q,
          )
    ]
