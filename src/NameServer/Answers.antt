-- ===== src/NameServer/Answers.antt =====
-- What each handler of name_server/client_handler.c sends: one answer to the client, behind at most one
-- command to a storage server.
pub mod Commands
pub mod Exec
pub mod InStep
use distributed_concurrent_f.Prelude.{
  ℕ, ◌≤◌, Bool, true, false, not, List, [], ◌∷◌, ◌++◌, append_assoc, Option, none, some, Bytes, ℤ,
  length, get_or, ltb, if◌then◌else◌, All, ◌≡◌, ◌∙◌, refl, sym, ap, arith, Bool-cases, Option-cases,
  inl, inr,
}
use distributed_concurrent_f.HashTable.{ht_insert, ht_get, ht_delete, ht_modify}
use distributed_concurrent_f.HashTable.Chain.{FileMetadata}
use distributed_concurrent_f.Trie.{trie_insert, trie_delete}
use distributed_concurrent_f.NameServer.{
  NameServer, Message, create_file, delete_file, output, go_to, denied, no_file, exists, no_servers,
  created, deleted, granted, removed, offline, not_owner, StorageServerInfo, send_message,
  nm_save_files, get_ss_for_new_file, find_ss, check_access,
}
use distributed_concurrent_f.NameServer.Handlers.{
  Times, new_metadata, create_on, handle_create, send_delete, delete_checked, handle_delete,
  handle_create_delete, required_perm, touch, handle_read_write_stream, handle_info, grant, revoke,
  AccessRequest, add, remove, invalid, parse_access, change_access, serve_access, handle_access,
  handle_view, handle_list,
}

-- A command to a storage server.
unfoldable pub is_command : Message → Bool
is_command (create_file f) = true
is_command (delete_file f) = true
is_command _ = false

-- What `x` has sent since `nm`: at most one command to a storage server, and one answer.
pub record Answers (sock : ℕ) (nm x : NameServer) : Type 0 where
  pub commands : List (ℕ × Message)
  pub answer : Message
  pub to_storage : All (λ (c : ℕ × Message). is_command c.1 ≡ true) commands
  pub at_most_one : length commands ≤ 1
  pub is_answer : is_command answer ≡ false
  pub sent : x.sends ≡ nm.sends ++ (commands ++ (sock, answer) ∷ [])

-- A handler that sends an answer last, and nothing before it.
pub send-Answers :
    (nm y : NameServer) (sock : ℕ) (m : Message)
    → y.sends ≡ nm.sends
    → is_command m ≡ false
    → Answers sock nm (send_message y sock m)
send-Answers nm y sock m e h = record {
  commands = [];
  answer = m;
  to_storage = tt;
  at_most_one = omega arith;
  is_answer = h;
  sent = rw e refl;
}

-- A handler that sends a command before its answer.
command-Answers :
    (nm y : NameServer) (sock ss : ℕ) (c m : Message)
    → y.sends ≡ nm.sends ++ (ss, c) ∷ []
    → is_command c ≡ true
    → is_command m ≡ false
    → Answers sock nm (send_message y sock m)
command-Answers nm y sock ss c m e h k = record {
  commands = (ss, c) ∷ [];
  answer = m;
  to_storage = (h, tt);
  at_most_one = omega arith;
  is_answer = k;
  sent = rw e (append_assoc nm.sends ((ss, c) ∷ []) ((sock, m) ∷ []));
}

pub if-Answers :
    {nm x y : NameServer} {sock : ℕ} (b : Bool)
    → Answers sock nm x
    → Answers sock nm y
    → Answers sock nm (if b then x else y)
if-Answers true h k = h
if-Answers false h k = k

sends-nm_save_files : (nm : NameServer) → (nm_save_files nm).sends ≡ nm.sends
unfolding nm_save_files
sends-nm_save_files nm = ground arith

sends-get_ss : (nm : NameServer) → (get_ss_for_new_file nm).1.sends ≡ nm.sends
unfolding get_ss_for_new_file
sends-get_ss nm = ground arith

-- The state is saved behind the answer.
save-Answers :
    {sock : ℕ} (nm x : NameServer) → Answers sock nm x → Answers sock nm (nm_save_files x)
save-Answers nm x h = record {
  commands = h.commands;
  answer = h.answer;
  to_storage = h.to_storage;
  at_most_one = h.at_most_one;
  is_answer = h.is_answer;
  sent = sends-nm_save_files x ∙ h.sent;
}

-- The error of a request that cannot be read is an answer.
abbrev error_of : AccessRequest → Bool
error_of (add f v perm) = false
error_of (remove f v) = false
error_of (invalid error) = is_command error

parse_access-error : (args : List Bytes) → error_of (parse_access args) ≡ false
unfolding parse_access is_command
parse_access-error args = ground arith

module _ (nm : NameServer) (sock : ℕ) (user : Bytes) where
  create-Answers :
      (f : Bytes) (times : Times) → Answers sock nm (handle_create nm sock user f times)
  unfolding handle_create create_on is_command
  create-Answers f times = elim (Option-cases (ht_get nm.file_table f)) [
    | inr (m, e) ↦ rw (e, handle_create) (send-Answers nm nm sock exists refl refl)
    | inl e ↦ elim (Option-cases (get_ss_for_new_file nm).0) [
      | inl n ↦
          rw (e, n, handle_create)
            (send-Answers nm (get_ss_for_new_file nm).1 sock no_servers (sends-get_ss nm) refl)
      | inr (ss, n) ↦
          rw (e, n, handle_create)
            (save-Answers nm _ (
              command-Answers nm _ sock ss.socket (create_file f) created
                (ap (λ l. l ++ (ss.socket, create_file f) ∷ []) (sends-get_ss nm)) refl refl))
    ]
  ]

  -- DELETE has sent its command, if the storage server is connected.
  deleted-Answers :
      (y : NameServer) (m : FileMetadata) (f : Bytes)
      → y.sends ≡ (send_delete nm m f).sends
      → Answers sock nm (send_message y sock deleted)
  unfolding send_delete is_command
  deleted-Answers y m f e = elim (Option-cases (find_ss nm.ss_list m.ss_ip m.ss_client_port)) [
    | inl n ↦ send-Answers nm y sock deleted (rw (n, send_delete) at e) refl
    | inr (ss, n) ↦
        command-Answers nm y sock ss.socket (delete_file f) deleted (rw (n, send_delete) at e) refl
          refl
  ]

  delete-Answers : (f : Bytes) → Answers sock nm (handle_delete nm sock user f)
  unfolding handle_delete delete_checked is_command
  delete-Answers f = elim (Option-cases (ht_get nm.file_table f)) [
    | inl e ↦ rw (e, handle_delete) (send-Answers nm nm sock no_file refl refl)
    | inr (m, e) ↦
        rw (e, handle_delete)
          (if-Answers _ (send-Answers nm nm sock _ refl refl)
            (save-Answers nm _ (deleted-Answers _ m f refl)))
  ]

  create_delete-Answers :
      (args : List Bytes) (b : Bool) (times : Times)
      → Answers sock nm (handle_create_delete nm sock user args b times)
  unfolding handle_create_delete is_command
  create_delete-Answers args b times =
      if-Answers (ltb (length args) 2) (send-Answers nm nm sock _ refl refl)
        (if-Answers b (create-Answers (get_or args 1 []) times) (delete-Answers (get_or args 1 [])))

  change-Answers :
      (f : Bytes) (change : FileMetadata → FileMetadata) (done : Message)
      → is_command done ≡ false
      → Answers sock nm (change_access nm sock user f change done)
  unfolding change_access is_command
  change-Answers f change done h = elim (Option-cases (ht_get nm.file_table f)) [
    | inl e ↦ rw (e, change_access) (send-Answers nm nm sock no_file refl refl)
    | inr (m, e) ↦
        rw (e, change_access)
          (if-Answers _ (send-Answers nm nm sock _ refl refl)
            (save-Answers nm _ (send-Answers nm _ sock done refl h)))
  ]

  serve-Answers :
      (r : AccessRequest) → error_of r ≡ false → Answers sock nm (serve_access nm sock user r)
  unfolding is_command
  serve-Answers (add f v perm) h = change-Answers f (grant v perm) granted refl
  serve-Answers (remove f v) h = change-Answers f (revoke v) removed refl
  serve-Answers (invalid error) h = send-Answers nm nm sock error refl h

  pub access-Answers : (args : List Bytes) → Answers sock nm (handle_access nm sock user args)
  unfolding handle_access
  access-Answers args = serve-Answers (parse_access args) (parse_access-error args)

  pub read-Answers :
      (args : List Bytes) (now : ℤ)
      → Answers sock nm (handle_read_write_stream nm sock user args now)
  unfolding handle_read_write_stream is_command
  read-Answers args now = elim (Bool-cases (ltb (length args) 2)) [
    | inl few ↦ rw (few, handle_read_write_stream) (send-Answers nm nm sock _ refl refl)
    | inr enough ↦ elim (Option-cases (ht_get nm.file_table (get_or args 1 []))) [
      | inl e ↦ rw (enough, e, handle_read_write_stream) (send-Answers nm nm sock _ refl refl)
      | inr (m, e) ↦
          let perm = required_perm (get_or args 0 []) in
          let touched = record nm {
            file_table = ht_modify nm.file_table (get_or args 1 []) (touch now);
          } in
          elim (Option-cases (find_ss nm.ss_list m.ss_ip m.ss_client_port)) [
            | inl n ↦
                rw (enough, e, handle_read_write_stream, n)
                  (if-Answers (not (check_access m user perm))
                    (send-Answers nm nm sock (denied perm) refl refl)
                    (send-Answers nm touched sock offline refl refl))
            | inr (ss, n) ↦
                rw (enough, e, handle_read_write_stream, n)
                  (if-Answers (not (check_access m user perm))
                    (send-Answers nm nm sock (denied perm) refl refl)
                    (send-Answers nm touched sock (go_to m.ss_ip m.ss_client_port) refl refl))
          ]
    ]
  ]

  pub info-Answers : (args : List Bytes) → Answers sock nm (handle_info nm sock user args)
  unfolding handle_info is_command
  info-Answers args = elim (Bool-cases (ltb (length args) 2)) [
    | inl few ↦ rw (few, handle_info) (send-Answers nm nm sock _ refl refl)
    | inr enough ↦ elim (Option-cases (ht_get nm.file_table (get_or args 1 []))) [
      | inl e ↦ rw (enough, e, handle_info) (send-Answers nm nm sock _ refl refl)
      | inr (m, e) ↦
          rw (enough, e, handle_info)
            (if-Answers _ (send-Answers nm nm sock _ refl refl)
              (send-Answers nm nm sock _ refl refl))
    ]
  ]

  pub view-Answers : (args : List Bytes) → Answers sock nm (handle_view nm sock user args)
  unfolding handle_view is_command
  view-Answers args = send-Answers nm nm sock _ refl refl

  pub list-Answers : Answers sock nm (handle_list nm sock)
  unfolding handle_list is_command
  list-Answers = send-Answers nm nm sock _ refl refl
