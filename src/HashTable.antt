-- ===== src/HashTable.antt =====
-- The file table of common/data_structures.c: 1024 chains of `FileMetadata`. The array of buckets is
-- a function of the index. A handler that writes through the pointer which `ht_get` returned is
-- `ht_modify` here; mutexes are left out, since an operation is one step.
pub mod Chain
pub mod Laws
use distributed_concurrent_f.Prelude.{
  ℕ, ◌+◌, ◌-◌, ◌*◌, ◌%◌, ◌^◌, Bool, true, false, List, [], ◌∷◌, Option, none, some, Bytes, ℤ,
  str_eq, leb, ◌==◌, if◌then◌else◌,
}
use distributed_concurrent_f.AccessList.{AccessNode}
use distributed_concurrent_f.HashTable.Chain.{FileMetadata, chain_find, chain_erase, chain_modify}

-- `HT_SIZE`
abbrev pub ht_size : ℕ
ht_size = 1024

-- A `char` is signed: the byte `c` as an `int`, added to an `unsigned long`.
unfoldable pub sign_extend : ℕ → ℕ
sign_extend c = if leb 128 c then (2 ^ 64 - 256) + c else c

-- One round of djb2 in 64 bits.
unfoldable pub hash_round : ℕ → ℕ → ℕ
unfolding sign_extend
hash_round hash c = (((hash * 2 ^ 5) % 2 ^ 64 + hash) + sign_extend c) % 2 ^ 64

unfoldable pub hash_loop : Bytes → ℕ → ℕ
hash_loop [] hash = hash
hash_loop (c ∷ key) hash = hash_loop key (hash_round hash c)

unfoldable pub hash_function : Bytes → ℕ
unfolding hash_loop hash_round
hash_function key = hash_loop key 5381 % ht_size

abbrev pub HashTable : Type 0
HashTable = ℕ → List FileMetadata

unfoldable pub ht_create : HashTable
ht_create i = []

abbrev pub set_bucket : HashTable → ℕ → List FileMetadata → HashTable
set_bucket table index chain i = if i == index then chain else table i

-- The flag is the return value: 0 if a file of that name is there.
unfoldable pub ht_insert : HashTable → FileMetadata → Bool × HashTable
ht_insert table metadata =
    let index = hash_function metadata.filename in
    elim (chain_find metadata.filename (table index)) [
      | some m ↦ (false, table)
      | none ↦ (true, set_bucket table index (metadata ∷ table index))
    ]

unfoldable pub ht_get : HashTable → Bytes → Option FileMetadata
ht_get table filename = chain_find filename (table (hash_function filename))

unfoldable pub ht_delete : HashTable → Bytes → HashTable
ht_delete table filename =
    let index = hash_function filename in
    set_bucket table index (chain_erase filename (table index))

unfoldable pub ht_modify : HashTable → Bytes → (FileMetadata → FileMetadata) → HashTable
ht_modify table filename f =
    let index = hash_function filename in
    set_bucket table index (chain_modify filename f (table index))
