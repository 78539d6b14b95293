-- ===== src/NameServer/StorageTable.antt =====
-- A storage server leaves the table of the name server in good order, whatever it sends
-- (name_server/ss_handler.c).
use distributed_concurrent_f.Prelude.{
  ℕ, true, false, List, [], ◌∷◌, Bytes, ℤ, Bool, get_or, refl, Bool-cases, Option-cases, inl, inr,
  if◌then◌else◌,
}
use distributed_concurrent_f.CString.{split_string, atoi}
use distributed_concurrent_f.HashTable.{HashTable, ht_get, ht_modify}
use distributed_concurrent_f.HashTable.Laws.{IsTable, ht_modify-IsTable}
use distributed_concurrent_f.NameServer.{NameServer, add_ss, remove_ss}
use distributed_concurrent_f.NameServer.Catalog.{catalog, Change, keep}
use distributed_concurrent_f.NameServer.Create.{save_table}
use distributed_concurrent_f.NameServer.Refinement.Rights.{rights-Same, rights-Tidy}
use distributed_concurrent_f.NameServer.Refinement.Commands.{Tidy}
use distributed_concurrent_f.NameServer.SsHandler.{
  move, relocate, listed_files, register_ss, is_no_registration, nm_handle_ss_init, set_stats,
  info_file, nm_handle_ss_message, serve_ss, nm_handle_ss_messages, serve_storage,
}
use distributed_concurrent_f.NameServer.StorageSession.{serve_storage-Keeps}

relocate-IsTable :
    (t : HashTable) (ip : Bytes) (port : ℤ) (files : List Bytes)
    → IsTable t
    → IsTable (relocate t ip port files)
unfolding relocate
relocate-IsTable t ip port [] v = v
relocate-IsTable t ip port (f ∷ files) v =
    relocate-IsTable (ht_modify t f (move ip port)) ip port files
      (ht_modify-IsTable (move ip port) (λ m. refl) t f v)

if-IsTable :
    (x y : NameServer) (b : Bool)
    → IsTable x.file_table
    → IsTable y.file_table
    → IsTable (if b then x else y).file_table
if-IsTable x y true h k = h
if-IsTable x y false h k = k

info-IsTable :
    (nm : NameServer) (f : Bytes) (size words chars now : ℤ)
    → IsTable nm.file_table
    → IsTable (info_file nm f (set_stats size words chars now)).file_table
info-IsTable nm f size words chars now v =
    let change = set_stats size words chars now in
    let changed = ht_modify-IsTable change (λ m. refl) nm.file_table f v in
    elim (Option-cases (ht_get nm.file_table f)) [
      | inl e ↦ rw (e, info_file) v
      | inr (m, e) ↦ rw (e, info_file) (rw save_table changed)
    ]

pub message-IsTable :
    (nm : NameServer) (buffer : Bytes) (now : ℤ)
    → IsTable nm.file_table
    → IsTable (nm_handle_ss_message nm buffer now).file_table
unfolding nm_handle_ss_message
message-IsTable nm buffer now v =
    let parts = split_string buffer 32 in
    if-IsTable _ _ _ v (
      if-IsTable _ _ _
        (info-IsTable nm (get_or parts 1 []) (atoi (get_or parts 2 [])) (atoi (get_or parts 3 []))
          (atoi (get_or parts 4 [])) now v)
        v)

pub init-IsTable :
    (nm : NameServer) (sock : ℕ) (ip buffer : Bytes)
    → IsTable nm.file_table
    → IsTable (nm_handle_ss_init nm sock ip buffer).file_table
unfolding nm_handle_ss_init register_ss add_ss
init-IsTable nm sock ip buffer v =
    let parts = split_string buffer 32 in
    let moved =
      relocate-IsTable nm.file_table ip (atoi (get_or parts 1 []))
        (listed_files (get_or parts 2 [])) v in
    elim (Bool-cases (is_no_registration parts)) [
      | inl e ↦ rw (e, nm_handle_ss_init) v
      | inr e ↦ rw (e, nm_handle_ss_init) moved
    ]

serve-IsTable :
    (nm : NameServer) (messages : List (Bytes × ℤ))
    → IsTable nm.file_table
    → IsTable (serve_ss nm messages).file_table
unfolding serve_ss
serve-IsTable nm [] v = v
serve-IsTable nm ((buffer, now) ∷ messages) v =
    serve-IsTable (nm_handle_ss_message nm buffer now) messages (message-IsTable nm buffer now v)

storage-IsTable :
    (nm : NameServer) (sock : ℕ) (ip buffer : Bytes) (messages : List (Bytes × ℤ))
    → IsTable nm.file_table
    → IsTable (serve_storage nm sock ip buffer messages).file_table
unfolding serve_storage nm_handle_ss_messages remove_ss
storage-IsTable nm sock ip buffer messages v =
    let first = init-IsTable nm sock ip buffer v in
    if-IsTable _ _ (is_no_registration (split_string buffer 32)) first
      (serve-IsTable (nm_handle_ss_init nm sock ip buffer) messages first)

-- The connection of a storage server is no change of the catalog.
pub storage-Change :
    (nm : NameServer) (user : Bytes) (sock : ℕ) (ip buffer : Bytes) (messages : List (Bytes × ℤ))
    → Tidy nm
    → let after = serve_storage nm sock ip buffer messages in
      Change user (catalog nm.file_table) (catalog after.file_table) × Tidy after
storage-Change nm user sock ip buffer messages tidy =
    let k = serve_storage-Keeps nm sock ip buffer messages in
    let after = serve_storage nm sock ip buffer messages in
    let same = rights-Same nm.file_table after.file_table k.owners in
    (
      keep same.0 same.1,
      rights-Tidy nm after k.owners (storage-IsTable nm sock ip buffer messages tidy.table) tidy,
    )
