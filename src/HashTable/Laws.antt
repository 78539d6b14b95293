-- ===== src/HashTable/Laws.antt =====
-- The table of common/data_structures.c is a map from names to metadata.
use mathlib.Core.Option
use distributed_concurrent_f.Prelude.{
  ℕ, true, false, ◌&&◌, ◌≡◌, refl, arith, Bytes, none, some, Option-cases, inl, inr, str_eq,
  str_eq_iff, if◌then◌else◌,
}
use distributed_concurrent_f.HashTable.{
  HashTable, hash_function, ht_create, ht_insert, ht_get, ht_delete, ht_modify,
}
use distributed_concurrent_f.HashTable.Chain.{
  FileMetadata, chain_find, has_file, is_unique, has_none, find_name, find-erase, has-erase,
  erase_unique, find-modify, has-modify, modify_unique,
}

-- Each file stands once, and in the chain that its name hashes to.
pub record IsTable (t : HashTable) : Type 0 where
  pub unique : (i : ℕ) → is_unique (t i) ≡ true
  pub placed : (i : ℕ) (k : Bytes) → has_file k (t i) ≡ true → hash_function k ≡ i

pub ht_create-IsTable : IsTable ht_create
unfolding ht_create is_unique has_file
ht_create-IsTable = record { unique = λ i. refl; placed = λ i k h. cc }

-- What `ht_get` returns has the name that it was asked for.
pub ht_get_name :
    (t : HashTable) (k : Bytes) (m : FileMetadata) → ht_get t k ≡ some m → m.filename ≡ k
unfolding ht_get
ht_get_name t k m h = find_name k (t (hash_function k)) m h

-- An insertion succeeds if the name is free, and then it alone is bound to the new metadata;
-- otherwise the table stays.
pub get-insert :
    (t : HashTable) (m : FileMetadata) (q : Bytes)
    → ((ht_insert t m).0 ≡ elim (ht_get t m.filename) [ none ↦ true | some old ↦ false ])
      × (ht_get (ht_insert t m).1 q
          ≡ (if (ht_insert t m).0 && str_eq q m.filename then some m else ht_get t q))
unfolding ht_get ht_insert chain_find
get-insert t m q = elim (Option-cases (chain_find m.filename (t (hash_function m.filename)))) [
  | inl e ↦
      rw (e, ht_insert) (refl, ground (arith, str_eq_iff m.filename q, str_eq_iff q m.filename))
  | inr (old, e) ↦ rw (e, ht_insert) (refl, refl)
]

pub ht_insert-IsTable : (t : HashTable) (m : FileMetadata) → IsTable t → IsTable (ht_insert t m).1
unfolding ht_insert is_unique has_file
ht_insert-IsTable t m v = record {
  unique = λ i. ground (arith, v.unique i, has_none m.filename (t i));
  placed = λ i k h. ground (arith, v.placed i k, str_eq_iff m.filename k);
}

-- In a well-formed table a deletion unbinds its name alone.
pub get-delete :
    (t : HashTable) (k q : Bytes)
    → IsTable t
    → ht_get (ht_delete t k) q ≡ (if str_eq q k then none else ht_get t q)
unfolding ht_get ht_delete
get-delete t k q v =
    ground (arith, find-erase k q (t (hash_function k)), v.unique (hash_function k), str_eq_iff q k)

pub ht_delete-IsTable : (t : HashTable) (k : Bytes) → IsTable t → IsTable (ht_delete t k)
unfolding ht_delete
ht_delete-IsTable t k v = record {
  unique = λ i. ground (arith, v.unique i, erase_unique k (t i));
  placed = λ i q h. ground (arith, v.placed i q, has-erase k q (t i));
}

module _ (f : FileMetadata → FileMetadata)
    (keeps : (m : FileMetadata) → (f m).filename ≡ m.filename) where
  -- A write through the pointer of a file changes what is bound to its name, and no other binding.
  pub get-modify :
      (t : HashTable) (k q : Bytes)
      → ht_get (ht_modify t k f) q ≡ (if str_eq q k then Option.map f (ht_get t q) else ht_get t q)
  unfolding ht_get ht_modify
  get-modify t k q = ground (arith, find-modify f keeps k q (t (hash_function k)), str_eq_iff q k)

  pub ht_modify-IsTable : (t : HashTable) (k : Bytes) → IsTable t → IsTable (ht_modify t k f)
  unfolding ht_modify
  ht_modify-IsTable t k v = record {
    unique = λ i. ground (arith, v.unique i, modify_unique f keeps k (t i));
    placed = λ i q h. ground (arith, v.placed i q, has-modify f keeps k q (t i));
  }
