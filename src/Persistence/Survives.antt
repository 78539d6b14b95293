-- ===== src/Persistence/Survives.antt =====
-- What is left of a file when its line is read back.
use distributed_concurrent_f.Prelude.{
  [], ◌∷◌, ◌++◌, ◌≡◌, ◌≢◌, arith, ℤ, Option, none, some, List-cases, inl, inr,
}
use distributed_concurrent_f.HashTable.Chain.{FileMetadata}
use distributed_concurrent_f.Persistence.{file_line, load_line}
use distributed_concurrent_f.Persistence.Line.{
  IsSaved, reloaded, load_line-file_line, load_line-eq-none,
}

-- Nothing, or the file with new times.
pub survives : ℤ → FileMetadata → Option FileMetadata
survives now m = elim m.access_list [ [] ↦ none | n ∷ l ↦ some (reloaded now m) ]

pub survives-some :
    (now : ℤ) (m : FileMetadata) → m.access_list ≢ [] → survives now m ≡ some (reloaded now m)
unfolding survives
survives-some now m h = elim (List-cases m.access_list) [
  | inl e ↦ absurd (h e)
  | inr (n, l, e) ↦ ground (arith, e)
]

pub survives-none : (now : ℤ) (m : FileMetadata) → m.access_list ≡ [] → survives now m ≡ none
unfolding survives
survives-none now m h = ground (arith, h)

pub load_line-survives :
    (now : ℤ) (m : FileMetadata)
    → IsSaved m
    → load_line now (file_line m ++ 10 ∷ []) ≡ survives now m
unfolding survives
load_line-survives now m s = elim (List-cases m.access_list) [
  | inl e ↦ ground (arith, e, load_line-eq-none now m s e)
  | inr (n, l, e) ↦ ground (arith, e, load_line-file_line now m s (λ (k : m.access_list ≡ []). cc))
]

pub survives_name :
    (now : ℤ) (m k : FileMetadata) → survives now m ≡ some k → k.filename ≡ m.filename
unfolding survives
survives_name now m k e = elim (List-cases m.access_list) [
  | inl h ↦ ground (arith, h)
  | inr (n, l, h) ↦ ground (arith, h)
]
