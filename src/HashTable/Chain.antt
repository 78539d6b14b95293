-- ===== src/HashTable/Chain.antt =====
-- One chain of the table: the loops of `ht_insert`, `ht_get` and `ht_delete`, and their laws.
use distributed_concurrent_f.Prelude.{
  Bool, true, false, not, ◌&&◌, ◌||◌, List, [], ◌∷◌, ◌≡◌, refl, arith, Bytes, ℤ, Option, none, some,
  str_eq, str_eq_iff, if◌then◌else◌,
}
use mathlib.Core.Option
use distributed_concurrent_f.AccessList.{AccessNode}

pub record FileMetadata : Type 0 where
  pub filename : Bytes
  pub owner : Bytes
  pub access_list : List AccessNode
  pub ss_ip : Bytes
  pub ss_client_port : ℤ
  pub size : ℤ
  pub word_count : ℤ
  pub char_count : ℤ
  pub created_at : ℤ
  pub last_modified : ℤ
  pub last_accessed : ℤ

-- The first entry of that name.
unfoldable pub chain_find : Bytes → List FileMetadata → Option FileMetadata
chain_find k [] = none
chain_find k (m ∷ chain) = if str_eq m.filename k then some m else chain_find k chain

-- The chain without that entry.
unfoldable pub chain_erase : Bytes → List FileMetadata → List FileMetadata
chain_erase k [] = []
chain_erase k (m ∷ chain) = if str_eq m.filename k then chain else m ∷ chain_erase k chain

-- The chain with that entry changed in place.
unfoldable pub chain_modify :
    Bytes → (FileMetadata → FileMetadata) → List FileMetadata → List FileMetadata
chain_modify k f [] = []
chain_modify k f (m ∷ chain) =
    if str_eq m.filename k then f m ∷ chain else m ∷ chain_modify k f chain

unfoldable pub has_file : Bytes → List FileMetadata → Bool
has_file k [] = false
has_file k (m ∷ chain) = str_eq m.filename k || has_file k chain

-- No two entries have the same name.
unfoldable pub is_unique : List FileMetadata → Bool
is_unique [] = true
is_unique (m ∷ chain) = not (has_file m.filename chain) && is_unique chain

pub find_none :
    (k : Bytes) (chain : List FileMetadata) → has_file k chain ≡ false → chain_find k chain ≡ none
unfolding has_file chain_find
find_none k [] h = refl
find_none k (m ∷ chain) h = ground (arith, find_none k chain)

pub has_none :
    (k : Bytes) (chain : List FileMetadata) → chain_find k chain ≡ none → has_file k chain ≡ false
unfolding has_file chain_find
has_none k [] h = refl
has_none k (m ∷ chain) h = ground (arith, has_none k chain)

-- An entry that is found has the name that was looked for.
pub find_name :
    (k : Bytes) (chain : List FileMetadata) (m : FileMetadata)
    → chain_find k chain ≡ some m
    → m.filename ≡ k
unfolding chain_find
find_name k [] m h = cc
find_name k (n ∷ chain) m h = ground (arith, find_name k chain m, str_eq_iff n.filename k)

pub find-erase :
    (k q : Bytes) (chain : List FileMetadata)
    → is_unique chain ≡ true
    → chain_find q (chain_erase k chain) ≡ (if str_eq q k then none else chain_find q chain)
unfolding chain_find chain_erase is_unique
find-erase k q [] h = ground arith
find-erase k q (m ∷ chain) h = ground (
  arith,
  find-erase k q chain,
  find_none m.filename chain,
  find_none k chain,
  str_eq_iff m.filename k,
  str_eq_iff m.filename q,
  str_eq_iff q k,
)

pub has-erase :
    (k q : Bytes) (chain : List FileMetadata)
    → has_file q chain ≡ false
    → has_file q (chain_erase k chain) ≡ false
unfolding has_file chain_erase
has-erase k q [] h = refl
has-erase k q (m ∷ chain) h = ground (arith, has-erase k q chain)

pub erase_unique :
    (k : Bytes) (chain : List FileMetadata)
    → is_unique chain ≡ true
    → is_unique (chain_erase k chain) ≡ true
unfolding is_unique chain_erase
erase_unique k [] h = refl
erase_unique k (m ∷ chain) h = ground (arith, erase_unique k chain, has-erase k m.filename chain)

-- A write that keeps the name.
module _ (f : FileMetadata → FileMetadata)
    (keeps : (m : FileMetadata) → (f m).filename ≡ m.filename) where
  pub find-modify :
      (k q : Bytes) (chain : List FileMetadata)
      → chain_find q (chain_modify k f chain)
        ≡ (if str_eq q k then Option.map f (chain_find q chain) else chain_find q chain)
  unfolding chain_find chain_modify
  find-modify k q [] = ground arith
  find-modify k q (m ∷ chain) = ground (
    arith,
    find-modify k q chain,
    keeps m,
    str_eq_iff m.filename k,
    str_eq_iff m.filename q,
    str_eq_iff q k,
  )

  pub has-modify :
      (k q : Bytes) (chain : List FileMetadata)
      → has_file q (chain_modify k f chain) ≡ has_file q chain
  unfolding has_file chain_modify
  has-modify k q [] = refl
  has-modify k q (m ∷ chain) = ground (arith, has-modify k q chain, keeps m)

  pub modify_unique :
      (k : Bytes) (chain : List FileMetadata) → is_unique (chain_modify k f chain) ≡ is_unique chain
  unfolding is_unique chain_modify
  modify_unique k [] = refl
  modify_unique k (m ∷ chain) =
      ground (arith, modify_unique k chain, has-modify k m.filename chain, keeps m)
