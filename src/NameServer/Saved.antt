-- ===== src/NameServer/Saved.antt =====
-- The files of a table that name_server/persistence.c can save, and the rights to them.
use distributed_concurrent_f.Prelude.{
  ℕ, ◌≤◌, List, [], ◌∷◌, ◌≡◌, refl, arith, some, Option-cases, Bool-cases, inl, inr, Bytes, ℤ,
  str_eq, str_eq_iff, ◌==◌, zero, suc, ◌+◌, ◌<◌, All, All-append, All-append_left, All-append_right,
  if◌then◌else◌,
}
use distributed_concurrent_f.CString.Lines.{IsLine}
use distributed_concurrent_f.AccessList.{add_access, get_access}
use distributed_concurrent_f.AccessList.Laws.{no_user, get-add_access}
use distributed_concurrent_f.HashTable.{HashTable, ht_size, hash_function, ht_get, ht_insert}
use distributed_concurrent_f.HashTable.Chain.{FileMetadata, chain_find}
use distributed_concurrent_f.Persistence.{file_lines}
use distributed_concurrent_f.Persistence.Entry.{get-add_all}
use distributed_concurrent_f.Persistence.Line.{IsSaved, reloaded, file_line-IsLine}
use distributed_concurrent_f.NameServer.{files_from, all_files, check_access}
use distributed_concurrent_f.NameServer.Reload.{hash_lt}

-- Every bucket of the table holds only files that can be saved.
abbrev pub BucketsSaved : HashTable → Type 0
BucketsSaved t = (j : ℕ) → All IsSaved (t j)

pub insert-BucketsSaved :
    (t : HashTable) (m : FileMetadata) → BucketsSaved t → IsSaved m → BucketsSaved (ht_insert t m).1
unfolding ht_insert
insert-BucketsSaved t m h s j =
    elim (Option-cases (chain_find m.filename (t (hash_function m.filename)))) [
      | inl e ↦ elim (Bool-cases (j == hash_function m.filename)) [
        | inl here ↦ rw (ht_insert, e, here) (s, h (hash_function m.filename))
        | inr there ↦ rw (ht_insert, e, there) (h j)
      ]
      | inr (k, e) ↦ rw (ht_insert, e) (h j)
    ]

pub BucketsSaved-files_from :
    (n i : ℕ) (t : HashTable) → BucketsSaved t → All IsSaved (files_from n i t)
unfolding files_from
BucketsSaved-files_from zero i t h = tt
BucketsSaved-files_from (suc n) i t h =
    All-append IsSaved (t i) (files_from n (i + 1) t) (h i) (BucketsSaved-files_from n (i + 1) t h)

pub BucketsSaved-all_files : (t : HashTable) → BucketsSaved t → All IsSaved (all_files t)
unfolding all_files
BucketsSaved-all_files t h = BucketsSaved-files_from ht_size 0 t h

pub lines-IsLine : (l : List FileMetadata) → All IsSaved l → All IsLine (file_lines l)
unfolding file_lines
lines-IsLine [] h = tt
lines-IsLine (m ∷ l) h = (file_line-IsLine m h.0, lines-IsLine l h.1)

-- The owner is let in by name, and all others have the permission that was saved.
pub check-reloaded :
    (now : ℤ) (m : FileMetadata) (user : Bytes) (wanted : ℕ)
    → IsSaved m
    → check_access (reloaded now m) user wanted ≡ check_access m user wanted
unfolding check_access
check-reloaded now m user wanted s =
    let first_entry : get_access (add_access [] m.owner b'W') user
        ≡ (if str_eq user m.owner then b'W' else get_access [] user) =
      get-add_access [] m.owner user b'W' s.owner.2 in
    let unlisted : get_access [] user ≡ 0 = unfold get_access in refl in
    ground (
      arith,
      get-add_all (add_access [] m.owner b'W') m.access_list user s.entries s.unique,
      first_entry,
      unlisted,
      no_user m.access_list user,
      str_eq_iff user m.owner,
      str_eq_iff m.owner user,
    )

All-find :
    (q : Bytes) (l : List FileMetadata) (m : FileMetadata)
    → All IsSaved l
    → chain_find q l ≡ some m
    → IsSaved m
unfolding chain_find
All-find q [] m h e = cc
All-find q (n ∷ l) m h e = elim (Bool-cases (str_eq n.filename q)) [
  | inl here ↦ let same : n ≡ m = ground (arith, here, e) in rw (← same) h.0
  | inr more ↦ All-find q l m h.1 (ground (arith, more, e))
]

All-bucket :
    (n i j : ℕ) (t : HashTable)
    → All IsSaved (files_from n i t)
    → i ≤ j
    → j < i + n
    → All IsSaved (t j)
unfolding files_from
All-bucket zero i j t h low high = absurd (omega arith)
All-bucket (suc n) i j t h low high = elim (Bool-cases (i == j)) [
  | inl here ↦
      let e : i ≡ j = ground arith in
      rw (← e) (All-append_left IsSaved (t i) (files_from n (i + 1) t) h)
  | inr later ↦
      All-bucket n (i + 1) j t (All-append_right IsSaved (t i) (files_from n (i + 1) t) h)
        (ground arith) (omega arith)
]

-- A file of the table is among those that are saved.
pub found-IsSaved :
    (t : HashTable) (q : Bytes) (m : FileMetadata)
    → All IsSaved (all_files t)
    → ht_get t q ≡ some m
    → IsSaved m
unfolding ht_get all_files
found-IsSaved t q m h e =
    All-find q (t (hash_function q)) m
      (All-bucket ht_size 0 (hash_function q) t h (omega arith) (omega (arith, hash_lt q))) e
