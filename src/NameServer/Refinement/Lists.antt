-- ===== src/NameServer/Refinement/Lists.antt =====
-- The entries of a user in the access list of a file, after each command of name_server/client_handler.c.
use mathlib.Core.Logic.{◌⊎◌}
use distributed_concurrent_f.Prelude.{
  ℕ, ◌≡◌, ◌∙◌, refl, sym, ap, arith, Bytes, Option-cases, inl, inr,
}
use distributed_concurrent_f.AccessList.Laws.{Unique}
use distributed_concurrent_f.HashTable.{HashTable, ht_create, ht_get, ht_insert, ht_modify}
use distributed_concurrent_f.HashTable.Chain.{FileMetadata, chain_find}
use distributed_concurrent_f.HashTable.Laws.{IsTable, get-insert, get-modify}
use distributed_concurrent_f.NameServer.{
  NameServer, granted, removed, get_ss_for_new_file, StorageServerInfo,
}
use distributed_concurrent_f.NameServer.Handlers.{
  Times, new_metadata, grant, revoke, AccessRequest, add, remove, invalid, serve_access,
  handle_create, handle_delete,
}
use distributed_concurrent_f.NameServer.Create.{creates_table}
use distributed_concurrent_f.NameServer.Delete.{handle_delete_lem}
use distributed_concurrent_f.NameServer.Invariant.{change_kept}
use distributed_concurrent_f.NameServer.Refinement.{UniqueLists}
use distributed_concurrent_f.NameServer.Refinement.Access.{ShortUser}
use distributed_concurrent_f.AccessList.Laws.{
  add_access-Unique, remove_access-Unique, is_unique, has_user,
}
use distributed_concurrent_f.AccessList.{add_access, update_access, create_access_node}

pub same_lists : (t u : HashTable) → u ≡ t → UniqueLists t → UniqueLists u
same_lists t u e lists q m there = lists q m (ap (λ (w : HashTable). ht_get w q) (sym e) ∙ there)

modified_lists :
    (t : HashTable) (f : Bytes) (change : FileMetadata → FileMetadata)
    → ((m : FileMetadata) → (change m).filename ≡ m.filename)
    → ((m : FileMetadata) → Unique m.access_list → Unique (change m).access_list)
    → UniqueLists t
    → UniqueLists (ht_modify t f change)
modified_lists t f change keeps unique lists q m there = elim (Option-cases (ht_get t q)) [
  | inl e ↦ absurd (ground (arith, e, there, get-modify change keeps t f q))
  | inr (n, e) ↦ ground (arith, e, there, get-modify change keeps t f q, lists q n e, unique n)
]

pub kept_lists :
    (t u : HashTable) (f : Bytes) (change : FileMetadata → FileMetadata)
    → ((m : FileMetadata) → (change m).filename ≡ m.filename)
    → ((m : FileMetadata) → Unique m.access_list → Unique (change m).access_list)
    → (u ≡ t) ⊎ (u ≡ ht_modify t f change)
    → UniqueLists t
    → UniqueLists u
kept_lists t u f change keeps unique (inl e) lists = same_lists t u e lists
kept_lists t u f change keeps unique (inr e) lists =
    same_lists (ht_modify t f change) u e (modified_lists t f change keeps unique lists)

-- The table at the start has no file.
pub ht_create-UniqueLists : UniqueLists ht_create
unfolding ht_get ht_create chain_find
ht_create-UniqueLists q m there = cc

pub inserted_lists :
    (t : HashTable) (m : FileMetadata)
    → Unique m.access_list
    → UniqueLists t
    → UniqueLists (ht_insert t m).1
inserted_lists t m unique lists q n there =
    ground (arith, there, get-insert t m q, unique, lists q n)

new-Unique :
    (f user : Bytes) (ss : StorageServerInfo) (times : Times)
    → Unique (new_metadata f user ss times).access_list
unfolding new_metadata add_access update_access create_access_node is_unique has_user
new-Unique f user ss times = refl

pub create_lists :
    (nm : NameServer) (sock : ℕ) (user f : Bytes) (times : Times)
    → UniqueLists nm.file_table
    → UniqueLists (handle_create nm sock user f times).file_table
create_lists nm sock user f times lists = elim (Option-cases (ht_get nm.file_table f)) [
  | inr (old, e) ↦ same_lists nm.file_table _ (creates_table nm sock user f times ∙ rw e refl) lists
  | inl e ↦ elim (Option-cases (get_ss_for_new_file nm).0) [
    | inl n ↦ same_lists nm.file_table _ (creates_table nm sock user f times ∙ rw (e, n) refl) lists
    | inr (ss, n) ↦
        let m = new_metadata f user ss times in
        same_lists (ht_insert nm.file_table m).1 _
          (creates_table nm sock user f times ∙ rw (e, n) refl)
          (inserted_lists nm.file_table m (new-Unique f user ss times) lists)
  ]
]

pub delete_lists :
    (nm : NameServer) (sock : ℕ) (user f : Bytes)
    → IsTable nm.file_table
    → UniqueLists nm.file_table
    → UniqueLists (handle_delete nm sock user f).file_table
delete_lists nm sock user f v lists q m there =
    lists q m (ground (arith, there, handle_delete_lem nm sock user f q v))

pub serve_lists :
    (nm : NameServer) (sock : ℕ) (user : Bytes) (r : AccessRequest)
    → ShortUser r
    → UniqueLists nm.file_table
    → UniqueLists (serve_access nm sock user r).file_table
serve_lists nm sock user (add f v perm) h lists =
    kept_lists nm.file_table _ f (grant v perm) (λ m. refl)
      (λ m k. add_access-Unique m.access_list v perm h k)
      (change_kept nm sock user f (grant v perm) granted) lists
serve_lists nm sock user (remove f v) h lists =
    kept_lists nm.file_table _ f (revoke v) (λ m. refl)
      (λ m k. remove_access-Unique m.access_list v k)
      (change_kept nm sock user f (revoke v) removed) lists
serve_lists nm sock user (invalid error) h lists = lists
