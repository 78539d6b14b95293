-- ===== src/NameServer/Delete.antt =====
-- DELETE of name_server/client_handler.c on the file table, alone and behind CREATE.
use distributed_concurrent_f.Prelude.{
  ℕ, ◌≤◌, Bool, false, ◌&&◌, ◌≡◌, arith, Bytes, none, some, Option-cases, Bool-cases, inl, inr,
  length, max_name, copy_name_short, str_eq, str_eq_refl, str_eq_iff, if◌then◌else◌,
}
use distributed_concurrent_f.HashTable.{ht_get, ht_delete}
use distributed_concurrent_f.HashTable.Laws.{IsTable, get-delete, ht_delete-IsTable}
use distributed_concurrent_f.NameServer.{NameServer, get_ss_for_new_file, nm_save_files}
use distributed_concurrent_f.NameServer.Handlers.{
  Times, new_metadata, handle_create, send_delete, delete_checked, handle_delete,
}
use distributed_concurrent_f.NameServer.Create.{get-create, create-IsTable}

-- The file is there, and the user owns it.
abbrev pub owns : NameServer → Bytes → Bytes → Bool
owns nm username filename = elim (ht_get nm.file_table filename) [
  | none ↦ false
  | some m ↦ str_eq m.owner username
]

delete_table :
    (nm : NameServer) (sock : ℕ) (username filename : Bytes)
    → (handle_delete nm sock username filename).file_table
      ≡ (if owns nm username filename then ht_delete nm.file_table filename else nm.file_table)
unfolding handle_delete delete_checked nm_save_files send_delete
delete_table nm sock username filename = ground arith

-- In a well-formed table, DELETE by its owner removes the file, by others nothing, and no other
-- file in any case.
pub handle_delete_lem :
    (nm : NameServer) (sock : ℕ) (username filename q : Bytes)
    → IsTable nm.file_table
    → ht_get (handle_delete nm sock username filename).file_table q
      ≡ (if owns nm username filename && str_eq q filename then none else ht_get nm.file_table q)
handle_delete_lem nm sock username filename q v =
    ground (arith, delete_table nm sock username filename, get-delete nm.file_table filename q v)

pub delete-IsTable :
    (nm : NameServer) (sock : ℕ) (username filename : Bytes)
    → IsTable nm.file_table
    → IsTable (handle_delete nm sock username filename).file_table
delete-IsTable nm sock username filename v = elim (Bool-cases (owns nm username filename)) [
  | inl o ↦
      rw (delete_table nm sock username filename, o) (ht_delete-IsTable nm.file_table filename v)
  | inr o ↦ rw (delete_table nm sock username filename, o) v
]

-- In a well-formed table, a user who creates a file of a free name and deletes it leaves every
-- name bound as before. Neither name is one that is cut.
pub delete-create :
    (nm : NameServer) (sock : ℕ) (username filename q : Bytes) (times : Times)
    → IsTable nm.file_table
    → length filename ≤ max_name
    → length username ≤ max_name
    → ht_get nm.file_table filename ≡ none
    → ht_get
        (handle_delete
          (handle_create nm sock username filename times)
          sock
          username
          filename).file_table
        q
      ≡ ht_get nm.file_table q
unfolding new_metadata
delete-create nm sock username filename q times v hf hu free =
    let nm' = handle_create nm sock username filename times in
    let gone =
      handle_delete_lem nm' sock username filename q
        (create-IsTable nm sock username filename times v) in
    let made = get-create nm sock username filename filename times hf in
    let kept = get-create nm sock username filename q times hf in
    elim (Option-cases (get_ss_for_new_file nm).0) [
      | inl n ↦ ground (arith, free, n, gone, made, kept)
      | inr (ss, n) ↦ ground (
        arith,
        free,
        n,
        gone,
        made,
        kept,
        copy_name_short username hu,
        str_eq_refl username,
        str_eq_refl filename,
        str_eq_iff q filename,
      )
    ]
