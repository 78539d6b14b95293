-- ===== src/NameServer/Refinement.antt =====
-- CREATE, DELETE and the reading commands of name_server/client_handler.c against the catalog.
pub mod Access
pub mod Lists
pub mod Commands
pub mod Rights
use mathlib.Core.Option
use mathlib.Core.Logic.{◌⊎◌}
use distributed_concurrent_f.Prelude.{
  ℕ, ◌≤◌, Bool, true, false, not, ◌&&◌, ◌||◌, List, [], ◌∷◌, ◌≡◌, ◌∙◌, refl, sym, ap, arith, Bytes,
  Option, none, some, Option-cases, Bool-cases, List-cases, inl, inr, ℤ, All, length, max_name,
  str_eq, str_eq_iff, str_eq_refl, get_or, copy_name, copy_name_short, if◌then◌else◌,
}
use distributed_concurrent_f.CString.{split_string, trim_newline}
use distributed_concurrent_f.AccessList.Laws.{Unique}
use distributed_concurrent_f.HashTable.{HashTable, ht_get, ht_insert, ht_modify}
use distributed_concurrent_f.HashTable.Chain.{FileMetadata}
use distributed_concurrent_f.HashTable.Laws.{IsTable, get-insert, get-modify}
use distributed_concurrent_f.NameServer.{
  NameServer, Message, granted, removed, nm_save_files, check_access, get_ss_for_new_file,
}
use distributed_concurrent_f.NameServer.Handlers.{
  Times, new_metadata, touch, grant, revoke, AccessRequest, add, remove, invalid, parse_access,
  change_access, serve_access, handle_view, handle_create, handle_delete, handle_create_delete,
  handle_read_write_stream, handle_info, handle_access, handle_list,
}
use distributed_concurrent_f.NameServer.Create.{allows, creates, creates_table, check-new_metadata}
use distributed_concurrent_f.NameServer.Delete.{owns, handle_delete_lem}
use distributed_concurrent_f.NameServer.Access.{check-grant, check-revoke, touch_rights}
use distributed_concurrent_f.NameServer.Invariant.{read_kept, change_kept, info_table}
use distributed_concurrent_f.NameServer.Ownership.{exec_table}
use distributed_concurrent_f.NameServer.Commands.{Outside, handle_exec, dispatch, nm_command}
use distributed_concurrent_f.NameServer.Catalog.{
  Catalog, may_access, catalog, Change, keep, create, delete, give, take_away,
}

-- No file of the table has a user twice in its list.
abbrev pub UniqueLists : HashTable → Type 0
UniqueLists t = (q : Bytes) (m : FileMetadata) → ht_get t q ≡ some m → Unique m.access_list

pub same_table : (user : Bytes) (t u : HashTable) → u ≡ t → Change user (catalog t) (catalog u)
same_table user t u e = keep (λ q. rw e refl) (λ q v wanted. rw e refl)

owner_touched :
    (t : HashTable) (f q : Bytes) (now : ℤ)
    → (catalog (ht_modify t f (touch now))).owner q ≡ (catalog t).owner q
owner_touched t f q now = elim (Option-cases (ht_get t q)) [
  | inl e ↦ ground (arith, e, get-modify (touch now) (λ m. refl) t f q)
  | inr (m, e) ↦ ground (arith, e, get-modify (touch now) (λ m. refl) t f q)
]

may_touched :
    (t : HashTable) (f q u : Bytes) (now : ℤ) (wanted : ℕ)
    → (catalog (ht_modify t f (touch now))).may q u wanted ≡ (catalog t).may q u wanted
unfolding check_access
may_touched t f q u now wanted = elim (Option-cases (ht_get t q)) [
  | inl e ↦ ground (arith, e, get-modify (touch now) (λ m. refl) t f q)
  | inr (m, e) ↦ ground (arith, e, get-modify (touch now) (λ m. refl) t f q)
]

pub touched :
    (user f : Bytes) (now : ℤ) (t u : HashTable)
    → (u ≡ t) ⊎ (u ≡ ht_modify t f (touch now))
    → Change user (catalog t) (catalog u)
touched user f now t u (inl e) = same_table user t u e
touched user f now t u (inr e) =
    keep (λ q. rw e (owner_touched t f q now)) (λ q v wanted. rw e (may_touched t f q v now wanted))

inserted :
    (user f : Bytes) (t : HashTable) (m : FileMetadata)
    → m.filename ≡ f
    → m.owner ≡ user
    → ((u : Bytes) (wanted : ℕ) → check_access m u wanted ≡ str_eq u user)
    → ht_get t f ≡ none
    → Change user (catalog t) (catalog (ht_insert t m).1)
inserted user f t m name own rights free =
    create f (rw free refl) (λ q. ground (arith, get-insert t m q, name, own, free, str_eq_iff q f))
      (λ q u wanted. ground (arith, get-insert t m q, name, rights u wanted, free, str_eq_iff q f))

pub create_Change :
    (nm : NameServer) (sock : ℕ) (user f : Bytes) (times : Times)
    → length user ≤ max_name
    → length f ≤ max_name
    → Change user (catalog nm.file_table) (catalog (handle_create nm sock user f times).file_table)
create_Change nm sock user f times hu hf = elim (Option-cases (ht_get nm.file_table f)) [
  | inr (old, e) ↦ same_table user nm.file_table _ (creates_table nm sock user f times ∙ rw e refl)
  | inl e ↦ elim (Option-cases (get_ss_for_new_file nm).0) [
    | inl n ↦ same_table user nm.file_table _ (creates_table nm sock user f times ∙ rw (e, n) refl)
    | inr (ss, n) ↦
        let m = new_metadata f user ss times in
        let made : (handle_create nm sock user f times).file_table ≡ (ht_insert nm.file_table m).1 =
          creates_table nm sock user f times ∙ rw (e, n) refl in
        rw made (
          inserted user f nm.file_table m (unfold new_metadata in copy_name_short f hf)
            (unfold new_metadata in copy_name_short user hu)
            (λ u wanted. check-new_metadata f user u ss times wanted hu) e)
  ]
]

pub owned :
    (nm : NameServer) (user f : Bytes)
    → owns nm user f ≡ true
    → (m : FileMetadata) × (ht_get nm.file_table f ≡ some m) × (m.owner ≡ user)
owned nm user f o = elim (Option-cases (ht_get nm.file_table f)) [
  | inl e ↦ absurd (ground (arith, o, e))
  | inr (m, e) ↦ (m, e, ground (arith, o, e, str_eq_iff m.owner user))
]

pub catalog_owner :
    (nm : NameServer) (user f : Bytes)
    → owns nm user f ≡ true
    → (catalog nm.file_table).owner f ≡ some user
catalog_owner nm user f o = let (m, e, own) = owned nm user f o in ground (arith, e, own)

pub delete_Change :
    (nm : NameServer) (sock : ℕ) (user f : Bytes)
    → IsTable nm.file_table
    → Change user (catalog nm.file_table) (catalog (handle_delete nm sock user f).file_table)
delete_Change nm sock user f v = elim (Bool-cases (owns nm user f)) [
  | inr o ↦
      keep (λ q. ground (arith, o, handle_delete_lem nm sock user f q v))
        (λ q u wanted. ground (arith, o, handle_delete_lem nm sock user f q v))
  | inl o ↦
      delete f (catalog_owner nm user f o)
        (λ q. ground (arith, o, handle_delete_lem nm sock user f q v))
        (λ q u wanted. ground (arith, o, handle_delete_lem nm sock user f q v))
]
