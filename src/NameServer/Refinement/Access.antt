-- ===== src/NameServer/Refinement/Access.antt =====
-- ADDACCESS and REMACCESS of name_server/client_handler.c against the catalog.
use distributed_concurrent_f.Prelude.{
  ℕ, ◌≤◌, true, false, ◌&&◌, ◌||◌, ◌≡◌, refl, arith, Bytes, Option-cases, Bool-cases, inl, inr,
  length, max_name, str_eq, str_eq_iff, if◌then◌else◌,
}
use distributed_concurrent_f.HashTable.{HashTable, ht_get, ht_modify}
use distributed_concurrent_f.HashTable.Chain.{FileMetadata}
use distributed_concurrent_f.HashTable.Laws.{get-modify}
use distributed_concurrent_f.NameServer.{NameServer, Message, granted, removed, nm_save_files}
use distributed_concurrent_f.NameServer.Handlers.{
  grant, revoke, AccessRequest, add, remove, invalid, change_access, serve_access,
}
use distributed_concurrent_f.NameServer.Create.{allows}
use distributed_concurrent_f.NameServer.Delete.{owns}
use distributed_concurrent_f.NameServer.Access.{check-grant, check-revoke}
use distributed_concurrent_f.NameServer.Catalog.{catalog, Change, give, take_away}
use distributed_concurrent_f.NameServer.Refinement.{UniqueLists, same_table, owned, catalog_owner}

-- The owner changes one file.
module _ (nm : NameServer) (sock : ℕ) (user f : Bytes) (change : FileMetadata → FileMetadata)
    (done : Message) (keeps : (m : FileMetadata) → (change m).filename ≡ m.filename) where
  unchanged_table :
      owns nm user f ≡ false → (change_access nm sock user f change done).file_table ≡ nm.file_table
  unfolding change_access nm_save_files
  unchanged_table o = ground (arith, o)

  changed_table :
      owns nm user f ≡ true
      → (change_access nm sock user f change done).file_table ≡ ht_modify nm.file_table f change
  unfolding change_access nm_save_files
  changed_table o = ground (arith, o)

modified_owner :
    (t : HashTable) (f q : Bytes) (change : FileMetadata → FileMetadata)
    → ((m : FileMetadata) → (change m).filename ≡ m.filename)
    → ((m : FileMetadata) → (change m).owner ≡ m.owner)
    → (catalog (ht_modify t f change)).owner q ≡ (catalog t).owner q
modified_owner t f q change keeps own = elim (Option-cases (ht_get t q)) [
  | inl e ↦ ground (arith, e, get-modify change keeps t f q)
  | inr (m, e) ↦ ground (arith, e, get-modify change keeps t f q, own m)
]

-- What may be done after the change of the list of one file, which user `user` owns.
module _ (nm : NameServer) (user f : Bytes) (o : owns nm user f ≡ true) where
  granted_may :
      (q u v : Bytes) (perm wanted : ℕ)
      → length v ≤ max_name
      → (catalog (ht_modify nm.file_table f (grant v perm))).may q u wanted ≡ (
          if str_eq q f && str_eq u v
          then str_eq user u || allows perm wanted
          else (catalog nm.file_table).may q u wanted)
  granted_may q u v perm wanted h =
      let (m, there, own) = owned nm user f o in
      elim (Option-cases (ht_get nm.file_table q)) [
        | inl e ↦ ground (
          arith,
          e,
          there,
          get-modify (grant v perm) (λ m. refl) nm.file_table f q,
          str_eq_iff q f,
        )
        | inr (n, e) ↦ ground (
          arith,
          e,
          there,
          own,
          get-modify (grant v perm) (λ m. refl) nm.file_table f q,
          str_eq_iff q f,
          check-grant n v u perm wanted h,
        )
      ]

  revoked_may :
      (q u v : Bytes) (wanted : ℕ)
      → UniqueLists nm.file_table
      → (catalog (ht_modify nm.file_table f (revoke v))).may q u wanted ≡ (
          if str_eq q f && str_eq u v
          then str_eq user u
          else (catalog nm.file_table).may q u wanted)
  revoked_may q u v wanted lists =
      let (m, there, own) = owned nm user f o in
      elim (Option-cases (ht_get nm.file_table q)) [
        | inl e ↦
            ground
              (arith, e, there, get-modify (revoke v) (λ m. refl) nm.file_table f q, str_eq_iff q f)
        | inr (n, e) ↦ ground (
          arith,
          e,
          there,
          own,
          get-modify (revoke v) (λ m. refl) nm.file_table f q,
          str_eq_iff q f,
          check-revoke n v u wanted (lists q n e),
        )
      ]

-- The user of a request for a right has a name that is not cut.
abbrev pub ShortUser : AccessRequest → Type 0
ShortUser (add f u perm) = length u ≤ max_name
ShortUser (remove f u) = Unit
ShortUser (invalid error) = Unit

pub serve_Change :
    (nm : NameServer) (sock : ℕ) (user : Bytes) (r : AccessRequest)
    → ShortUser r
    → UniqueLists nm.file_table
    → Change user (catalog nm.file_table) (catalog (serve_access nm sock user r).file_table)
serve_Change nm sock user (add f v perm) h lists = elim (Bool-cases (owns nm user f)) [
  | inr o ↦
      same_table user nm.file_table _
        (unchanged_table nm sock user f (grant v perm) granted (λ m. refl) o)
  | inl o ↦ rw (changed_table nm sock user f (grant v perm) granted (λ m. refl) o) (
      give f v perm (catalog_owner nm user f o)
        (λ q. modified_owner nm.file_table f q (grant v perm) (λ m. refl) (λ m. refl))
        (λ q u wanted. granted_may nm user f o q u v perm wanted h))
]
serve_Change nm sock user (remove f v) h lists = elim (Bool-cases (owns nm user f)) [
  | inr o ↦
      same_table user nm.file_table _
        (unchanged_table nm sock user f (revoke v) removed (λ m. refl) o)
  | inl o ↦ rw (changed_table nm sock user f (revoke v) removed (λ m. refl) o) (
      take_away f v (catalog_owner nm user f o)
        (λ q. modified_owner nm.file_table f q (revoke v) (λ m. refl) (λ m. refl))
        (λ q u wanted. revoked_may nm user f o q u v wanted lists))
]
serve_Change nm sock user (invalid error) h lists = same_table user nm.file_table _ refl
