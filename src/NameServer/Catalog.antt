-- ===== src/NameServer/Catalog.antt =====
-- The abstract view of the file table of the name server: a catalog of files, each with an owner and with
-- what every user may do, and the five ways in which one command of a user may change it.
use mathlib.Core.Option
use distributed_concurrent_f.Prelude.{
  ℕ, Bool, false, ◌&&◌, ◌||◌, ◌≡◌, Bytes, Option, none, some, str_eq, if◌then◌else◌,
}
use distributed_concurrent_f.HashTable.{HashTable, ht_get}
use distributed_concurrent_f.HashTable.Chain.{FileMetadata}
use distributed_concurrent_f.NameServer.{check_access}
use distributed_concurrent_f.NameServer.Create.{allows}

-- `may f u wanted`: the user `u` may do to the file `f` what the permission `wanted` stands for.
pub record Catalog : Type 0 where
  pub owner : Bytes → Option Bytes
  pub may : Bytes → Bytes → ℕ → Bool

-- The catalog that a table stands for.
abbrev pub may_access : Option FileMetadata → Bytes → ℕ → Bool
may_access none u wanted = false
may_access (some m) u wanted = check_access m u wanted

abbrev pub catalog : HashTable → Catalog
catalog t = record {
  owner = λ q. Option.map (λ m. m.owner) (ht_get t q);
  may = λ q u wanted. may_access (ht_get t q) u wanted;
}

-- What one command of `user` may do to the catalog `c`.
pub data Change (user : Bytes) (c d : Catalog) : Type 0 where
  keep :
      ((q : Bytes) → d.owner q ≡ c.owner q)
      → ((q u : Bytes) (wanted : ℕ) → d.may q u wanted ≡ c.may q u wanted)
      → Change user c d
  create :
      (f : Bytes)
      → c.owner f ≡ none
      → ((q : Bytes) → d.owner q ≡ (if str_eq q f then some user else c.owner q))
      → ((q u : Bytes) (wanted : ℕ)
          → d.may q u wanted ≡ (if str_eq q f then str_eq u user else c.may q u wanted))
      → Change user c d
  delete :
      (f : Bytes)
      → c.owner f ≡ some user
      → ((q : Bytes) → d.owner q ≡ (if str_eq q f then none else c.owner q))
      → ((q u : Bytes) (wanted : ℕ)
          → d.may q u wanted ≡ (if str_eq q f then false else c.may q u wanted))
      → Change user c d
  give :
      (f v : Bytes) (perm : ℕ)
      → c.owner f ≡ some user
      → ((q : Bytes) → d.owner q ≡ c.owner q)
      → ((q u : Bytes) (wanted : ℕ)
          → d.may q u wanted ≡ (
              if str_eq q f && str_eq u v
              then str_eq user u || allows perm wanted
              else c.may q u wanted))
      → Change user c d
  take_away :
      (f v : Bytes)
      → c.owner f ≡ some user
      → ((q : Bytes) → d.owner q ≡ c.owner q)
      → ((q u : Bytes) (wanted : ℕ)
          → d.may q u wanted
            ≡ (if str_eq q f && str_eq u v then str_eq user u else c.may q u wanted))
      → Change user c d
