-- ===== src/NameServer/Persisted/Commands.antt =====
-- The state files behind a command of a client, and a name server that is killed and started again:
-- the saving of name_server/persistence.c and the loading of it.
use distributed_concurrent_f.Prelude.{
  ℕ, Bool, true, false, not, List, [], ◌∷◌, ◌∙◌, sym, ap, Bytes, some, Option-cases, Bool-cases,
  List-cases, inl, inr, ℤ, get_or, ltb, length,
}
use distributed_concurrent_f.CString.{split_string, trim_newline}
use distributed_concurrent_f.HashTable.{ht_get, ht_modify}
use distributed_concurrent_f.NameServer.{
  NameServer, granted, removed, no_file, read_denied, unknown_command, find_ss, check_access,
}
use distributed_concurrent_f.NameServer.Handlers.{
  Times, touch, grant, revoke, AccessRequest, add, remove, invalid, parse_access, serve_access,
  handle_view, handle_create_delete, handle_read_write_stream, handle_info, handle_access,
  handle_list,
}
use distributed_concurrent_f.NameServer.Exec.{execute}
use distributed_concurrent_f.NameServer.Commands.{
  Outside, send_all, handle_exec, dispatch, nm_command,
}
use distributed_concurrent_f.NameServer.Persisted.{
  Persisted, send-Persisted, create-Persisted, delete-Persisted, change-Persisted, if-Persisted,
  text-touch,
}

touch-Persisted :
    (nm : NameServer) (f : Bytes) (now : ℤ)
    → Persisted nm
    → Persisted (record nm { file_table = ht_modify nm.file_table f (touch now) })
touch-Persisted nm f now p = record {
  can_save = p.can_save;
  files = p.files ∙ ap some (sym (text-touch nm.file_table f now));
  users = p.users;
}

read-Persisted :
    (nm : NameServer) (sock : ℕ) (user : Bytes) (args : List Bytes) (now : ℤ)
    → Persisted nm
    → Persisted (handle_read_write_stream nm sock user args now)
unfolding handle_read_write_stream
read-Persisted nm sock user args now p = elim (Bool-cases (ltb (length args) 2)) [
  | inl few ↦ rw (few, handle_read_write_stream) (send-Persisted nm sock _ p)
  | inr enough ↦
      let f = get_or args 1 [] in
      let touched = touch-Persisted nm f now p in
      elim (Option-cases (ht_get nm.file_table f)) [
        | inl e ↦ rw (enough, e, handle_read_write_stream) (send-Persisted nm sock no_file p)
        | inr (m, e) ↦ elim (Option-cases (find_ss nm.ss_list m.ss_ip m.ss_client_port)) [
          | inl k ↦
              rw (enough, e, handle_read_write_stream, k)
                (if-Persisted _ (send-Persisted _ _ _ p) (send-Persisted _ _ _ touched))
          | inr (ss, k) ↦
              rw (enough, e, handle_read_write_stream, k)
                (if-Persisted _ (send-Persisted _ _ _ p) (send-Persisted _ _ _ touched))
        ]
      ]
]

send_all-Persisted :
    (nm : NameServer) (sock : ℕ) (texts : List Bytes)
    → Persisted nm
    → Persisted (send_all nm sock texts)
unfolding send_all
send_all-Persisted nm sock [] p = p
send_all-Persisted nm sock (text ∷ texts) p =
    send_all-Persisted _ sock texts (send-Persisted _ _ _ p)

serve-Persisted :
    (nm : NameServer) (sock : ℕ) (user : Bytes) (r : AccessRequest)
    → Persisted nm
    → Persisted (serve_access nm sock user r)
serve-Persisted nm sock user (add f v perm) p =
    change-Persisted nm sock user f (grant v perm) granted p
serve-Persisted nm sock user (remove f v) p = change-Persisted nm sock user f (revoke v) removed p
serve-Persisted nm sock user (invalid error) p = send-Persisted _ _ _ p

exec-Persisted :
    (nm : NameServer) (sock : ℕ) (user : Bytes) (args : List Bytes) (outside : Outside)
    → Persisted nm
    → Persisted (handle_exec nm sock user args outside)
unfolding handle_exec
exec-Persisted nm sock user args outside p = elim (Bool-cases (ltb (length args) 2)) [
  | inl few ↦ rw (few, handle_exec) (send-Persisted nm sock _ p)
  | inr enough ↦
      let f = get_or args 1 [] in
      elim (Option-cases (ht_get nm.file_table f)) [
        | inl e ↦ rw (enough, e, handle_exec) (send-Persisted nm sock no_file p)
        | inr (m, e) ↦ elim (Option-cases (find_ss nm.ss_list m.ss_ip m.ss_client_port)) [
          | inl k ↦
              rw (enough, e, handle_exec, k)
                (if-Persisted _ (send-Persisted _ _ _ p) (send-Persisted _ _ _ p))
          | inr (ss, k) ↦
              rw (enough, e, handle_exec, k)
                (if-Persisted (not (check_access m user b'R'))
                  (send-Persisted nm sock read_denied p)
                  (send_all-Persisted nm sock (execute outside.shell m.ss_ip m.ss_client_port f) p))
        ]
      ]
]

info-Persisted :
    (nm : NameServer) (sock : ℕ) (user : Bytes) (args : List Bytes)
    → Persisted nm
    → Persisted (handle_info nm sock user args)
unfolding handle_info
info-Persisted nm sock user args p = elim (Bool-cases (ltb (length args) 2)) [
  | inl few ↦ rw (few, handle_info) (send-Persisted nm sock _ p)
  | inr enough ↦ elim (Option-cases (ht_get nm.file_table (get_or args 1 []))) [
    | inl e ↦ rw (enough, e, handle_info) (send-Persisted nm sock no_file p)
    | inr (m, e) ↦
        rw (enough, e, handle_info)
          (if-Persisted _ (send-Persisted _ _ _ p) (send-Persisted _ _ _ p))
  ]
]

create_delete-Persisted :
    (nm : NameServer) (sock : ℕ) (user : Bytes) (args : List Bytes) (b : Bool) (times : Times)
    → Persisted nm
    → Persisted (handle_create_delete nm sock user args b times)
unfolding handle_create_delete
create_delete-Persisted nm sock user args b times p =
    if-Persisted (ltb (length args) 2) (send-Persisted nm sock _ p) (
      if-Persisted b (create-Persisted nm sock user (get_or args 1 []) times p)
        (delete-Persisted nm sock user (get_or args 1 []) p))

view-Persisted :
    (nm : NameServer) (sock : ℕ) (user : Bytes) (args : List Bytes)
    → Persisted nm
    → Persisted (handle_view nm sock user args)
unfolding handle_view
view-Persisted nm sock user args p = record {
  can_save = p.can_save;
  files = p.files;
  users = p.users;
}

list-Persisted : (nm : NameServer) (sock : ℕ) → Persisted nm → Persisted (handle_list nm sock)
unfolding handle_list
list-Persisted nm sock p = record { can_save = p.can_save; files = p.files; users = p.users }

access-Persisted :
    (nm : NameServer) (sock : ℕ) (user : Bytes) (args : List Bytes)
    → Persisted nm
    → Persisted (handle_access nm sock user args)
unfolding handle_access
access-Persisted nm sock user args p = serve-Persisted nm sock user (parse_access args) p

dispatch-Persisted :
    (nm : NameServer) (sock : ℕ) (user cmd : Bytes) (args : List Bytes) (outside : Outside)
    → Persisted nm
    → Persisted (dispatch nm sock user cmd args outside)
unfolding dispatch
dispatch-Persisted nm sock user cmd args outside p =
    if-Persisted _ (view-Persisted nm sock user args p) (
      if-Persisted _ (create_delete-Persisted nm sock user args true outside.times p) (
        if-Persisted _ (create_delete-Persisted nm sock user args false outside.times p) (
          if-Persisted _ (read-Persisted nm sock user args outside.now p) (
            if-Persisted _ (info-Persisted nm sock user args p) (
              if-Persisted _ (access-Persisted nm sock user args p) (
                if-Persisted _ (exec-Persisted nm sock user args outside p) (
                  if-Persisted _ (list-Persisted nm sock p)
                    (send-Persisted nm sock unknown_command p))))))))

-- Every command of a client leaves both state files with the text that a save would write now, if they
-- had it before and can be written.
pub nm_command-Persisted :
    (nm : NameServer) (sock : ℕ) (user buffer : Bytes) (outside : Outside)
    → Persisted nm
    → Persisted (nm_command nm sock user buffer outside)
unfolding nm_command
nm_command-Persisted nm sock user buffer outside p =
    elim (List-cases (split_string (trim_newline buffer) 32)) [
      | inl e ↦ rw (e, nm_command) p
      | inr (cmd, rest, e) ↦
          rw (e, nm_command) (dispatch-Persisted nm sock user cmd (cmd ∷ rest) outside p)
    ]
