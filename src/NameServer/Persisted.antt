-- ===== src/NameServer/Persisted.antt =====
-- The state files of the name server, and what each handler of name_server/client_handler.c leaves in
-- them.
pub mod Commands
use distributed_concurrent_f.Prelude.{
  ℕ, Bool, true, false, not, ◌&&◌, ◌||◌, List, [], ◌∷◌, ◌++◌, ◌≡◌, ◌∙◌, refl, sym, ap, arith, Bytes,
  codes, Option, none, some, Option-cases, Bool-cases, List-cases, inl, inr, ℤ, zero, suc, ◌+◌,
  str_eq, get_or, if◌then◌else◌,
}
use distributed_concurrent_f.CString.{split_string, trim_newline}
use distributed_concurrent_f.HashTable.{HashTable, ht_size, ht_get, ht_modify, hash_function}
use distributed_concurrent_f.HashTable.Chain.{FileMetadata, chain_modify}
use distributed_concurrent_f.Persistence.{file_line, file_lines, files_text, users_text}
use distributed_concurrent_f.NameServer.{
  NameServer, StorageServerInfo, Message, files_from, all_files, nm_save_files, nm_save_users,
  get_ss_for_new_file, send_message, find_ss, check_access,
}
use distributed_concurrent_f.NameServer.Handlers.{
  Times, new_metadata, touch, grant, revoke, AccessRequest, add, remove, invalid, parse_access,
  change_access, serve_access, create_on, send_delete, required_perm, handle_view, handle_create,
  delete_checked, handle_delete, handle_create_delete, handle_read_write_stream, handle_info,
  handle_access, handle_list,
}
use distributed_concurrent_f.NameServer.Commands.{
  Outside, send_all, handle_exec, dispatch, nm_command,
}
use distributed_concurrent_f.NameServer.Restart.{nm_create, nm_free, restart}

-- The files can be written, and hold the tables.
pub record Persisted (nm : NameServer) : Type 0 where
  pub can_save : nm.can_save ≡ true
  pub files : nm.saved_files ≡ some (files_text (all_files nm.file_table))
  pub users : nm.saved_users ≡ some (users_text nm.all_users_list)

lines-append : (l k : List FileMetadata) → file_lines (l ++ k) ≡ file_lines l ++ file_lines k
unfolding file_lines
lines-append [] k = refl
lines-append (m ∷ l) k = rw (lines-append l k) refl

-- The time of the last access is not saved.
lines-touch :
    (f : Bytes) (now : ℤ) (l : List FileMetadata)
    → file_lines (chain_modify f (touch now) l) ≡ file_lines l
unfolding file_lines file_line chain_modify
lines-touch f now [] = refl
lines-touch f now (m ∷ l) = ground (arith, lines-touch f now l)

bucket-touch :
    (t : HashTable) (f : Bytes) (now : ℤ) (i : ℕ)
    → file_lines (ht_modify t f (touch now) i) ≡ file_lines (t i)
unfolding ht_modify
bucket-touch t f now i = ground (arith, lines-touch f now (t i))

lines_from-touch :
    (n i : ℕ) (t : HashTable) (f : Bytes) (now : ℤ)
    → file_lines (files_from n i (ht_modify t f (touch now))) ≡ file_lines (files_from n i t)
unfolding files_from
lines_from-touch zero i t f now = refl
lines_from-touch (suc n) i t f now =
    lines-append (ht_modify t f (touch now) i) (files_from n (i + 1) (ht_modify t f (touch now)))
    ∙ rw (bucket-touch t f now i, lines_from-touch n (i + 1) t f now)
        (sym (lines-append (t i) (files_from n (i + 1) t)))

pub text-touch :
    (t : HashTable) (f : Bytes) (now : ℤ)
    → files_text (all_files (ht_modify t f (touch now))) ≡ files_text (all_files t)
unfolding files_text all_files
text-touch t f now = rw (lines_from-touch ht_size 0 t f now)

save-Persisted :
    (nm : NameServer)
    → nm.can_save ≡ true
    → nm.saved_users ≡ some (users_text nm.all_users_list)
    → Persisted (nm_save_files nm)
unfolding nm_save_files
save-Persisted nm e u = record {
  can_save = ground (arith, e);
  files = ground (arith, e);
  users = ground (arith, e, u);
}

turn-Persisted : (nm : NameServer) → Persisted nm → Persisted (get_ss_for_new_file nm).1
unfolding get_ss_for_new_file
turn-Persisted nm p = elim (List-cases nm.ss_list) [
  | inl e ↦ record {
    can_save = ground (arith, e, p.can_save);
    files = ground (arith, e, p.files);
    users = ground (arith, e, p.users);
  }
  | inr (s, l, e) ↦ record {
    can_save = ground (arith, e, p.can_save);
    files = ground (arith, e, p.files);
    users = ground (arith, e, p.users);
  }
]

pub if-Persisted :
    {x y : NameServer} (b : Bool) → Persisted x → Persisted y → Persisted (if b then x else y)
if-Persisted true h k = h
if-Persisted false h k = k

-- A server that has sent something.
pub send-Persisted :
    (nm : NameServer) (sock : ℕ) (m : Message) → Persisted nm → Persisted (send_message nm sock m)
send-Persisted nm sock m p = record { can_save = p.can_save; files = p.files; users = p.users }

create_on-Persisted :
    (nm : NameServer) (sock : ℕ) (user f : Bytes) (times : Times) (ss : StorageServerInfo)
    → Persisted nm
    → Persisted (create_on nm sock user f times ss)
unfolding create_on
create_on-Persisted nm sock user f times ss p = save-Persisted _ p.can_save p.users

pub create-Persisted :
    (nm : NameServer) (sock : ℕ) (user f : Bytes) (times : Times)
    → Persisted nm
    → Persisted (handle_create nm sock user f times)
unfolding handle_create
create-Persisted nm sock user f times p = elim (Option-cases (ht_get nm.file_table f)) [
  | inr (old, e) ↦ rw (e, handle_create) (send-Persisted _ _ _ p)
  | inl e ↦
      let turned = turn-Persisted nm p in
      elim (Option-cases (get_ss_for_new_file nm).0) [
        | inl n ↦ rw (e, handle_create, n) (send-Persisted _ _ _ turned)
        | inr (ss, n) ↦
            rw (e, handle_create, n)
              (create_on-Persisted (get_ss_for_new_file nm).1 sock user f times ss turned)
      ]
]

send_delete-Persisted :
    (nm : NameServer) (m : FileMetadata) (f : Bytes) → Persisted nm → Persisted (send_delete nm m f)
unfolding send_delete
send_delete-Persisted nm m f p = elim (Option-cases (find_ss nm.ss_list m.ss_ip m.ss_client_port)) [
  | inl e ↦ rw (e, send_delete) p
  | inr (ss, e) ↦ rw (e, send_delete) (send-Persisted _ _ _ p)
]

pub delete-Persisted :
    (nm : NameServer) (sock : ℕ) (user f : Bytes)
    → Persisted nm
    → Persisted (handle_delete nm sock user f)
unfolding handle_delete delete_checked
delete-Persisted nm sock user f p = elim (Option-cases (ht_get nm.file_table f)) [
  | inl e ↦ rw (e, handle_delete) (send-Persisted _ _ _ p)
  | inr (m, e) ↦
      let d = send_delete-Persisted nm m f p in
      rw (e, handle_delete)
        (if-Persisted _ (send-Persisted _ _ _ p) (save-Persisted _ d.can_save d.users))
]

pub change-Persisted :
    (nm : NameServer) (sock : ℕ) (user f : Bytes) (change : FileMetadata → FileMetadata)
    (done : Message)
    → Persisted nm
    → Persisted (change_access nm sock user f change done)
unfolding change_access
change-Persisted nm sock user f change done p = elim (Option-cases (ht_get nm.file_table f)) [
  | inl e ↦ rw (e, change_access) (send-Persisted _ _ _ p)
  | inr (m, e) ↦
      rw (e, change_access)
        (if-Persisted _ (send-Persisted _ _ _ p) (save-Persisted _ p.can_save p.users))
]
