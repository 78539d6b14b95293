-- ===== src/NameServer/Handlers.antt =====
-- The command handlers of name_server/client_handler.c.

use distributed_concurrent_f.Prelude.{
  ℕ, Bool, false, not, ◌&&◌, ◌||◌, List, [], ◌∷◌, none, some, Bytes, codes, ℤ, pos, str_eq,
  copy_name, ltb, ◌==◌, if◌then◌else◌, length, take, get_or,
}
use distributed_concurrent_f.AccessList.{add_access, remove_access}
use distributed_concurrent_f.HashTable.{ht_insert, ht_get, ht_delete, ht_modify}
use distributed_concurrent_f.HashTable.Chain.{FileMetadata}
use distributed_concurrent_f.Trie.{trie_insert, trie_delete}
use distributed_concurrent_f.NameServer.{
  NameServer, Message, create_file, delete_file, usage, not_owner, denied, read_denied, bad_flag,
  no_file, exists, no_servers, offline, created, deleted, granted, removed, go_to, file_info,
  file_list, user_list, StorageServerInfo, send_message, nm_save_files, get_ss_for_new_file,
  find_ss, check_access, all_files,
}

-- `time(NULL)` at the three calls of `handle_create_delete`.
pub record Times : Type 0 where
  pub created_at : ℤ
  pub last_modified : ℤ
  pub last_accessed : ℤ

-- The `calloc`ed metadata of a new file.
unfoldable pub new_metadata : Bytes → Bytes → StorageServerInfo → Times → FileMetadata
unfolding copy_name
new_metadata filename username ss times = record {
  filename = copy_name filename;
  owner = copy_name username;
  access_list = add_access [] username b'W';
  ss_ip = take 15 ss.ip;
  ss_client_port = ss.client_port;
  size = pos 0;
  word_count = pos 0;
  char_count = pos 0;
  created_at = times.created_at;
  last_modified = times.last_modified;
  last_accessed = times.last_accessed;
}

-- The steps once a storage server is chosen. Nothing waits for its acknowledgement, and the result
-- of `ht_insert` is not looked at.
unfoldable pub create_on : NameServer → ℕ → Bytes → Bytes → Times → StorageServerInfo → NameServer
create_on nm client_sock username filename times ss =
    let nm₁ = send_message nm ss.socket (create_file filename) in
    let nm₂ = record nm₁ {
      file_table = (ht_insert nm₁.file_table (new_metadata filename username ss times)).1;
      file_trie = trie_insert nm₁.file_trie filename;
    } in
    nm_save_files (send_message nm₂ client_sock created)

unfoldable pub handle_create : NameServer → ℕ → Bytes → Bytes → Times → NameServer
unfolding create_on
handle_create nm client_sock username filename times = elim (ht_get nm.file_table filename) [
  | some meta ↦ send_message nm client_sock exists
  | none ↦ elim (get_ss_for_new_file nm).0 [
    | none ↦ send_message (get_ss_for_new_file nm).1 client_sock no_servers
    | some ss ↦ create_on (get_ss_for_new_file nm).1 client_sock username filename times ss
  ]
]

-- The command to the storage server, if it is connected.
unfoldable pub send_delete : NameServer → FileMetadata → Bytes → NameServer
send_delete nm meta filename = elim (find_ss nm.ss_list meta.ss_ip meta.ss_client_port) [
  | none ↦ nm
  | some ss ↦ send_message nm ss.socket (delete_file filename)
]

-- What DELETE does behind its checks, with the metadata that it has looked up. The source holds no lock
-- from the look-up to here.
unfoldable pub delete_checked : NameServer → ℕ → FileMetadata → Bytes → NameServer
unfolding send_delete
delete_checked nm client_sock meta filename =
    let nm₁ = send_delete nm meta filename in
    let nm₂ = record nm₁ {
      file_table = ht_delete nm₁.file_table filename;
      file_trie = trie_delete nm₁.file_trie filename;
    } in
    nm_save_files (send_message nm₂ client_sock deleted)

unfoldable pub handle_delete : NameServer → ℕ → Bytes → Bytes → NameServer
unfolding delete_checked
handle_delete nm client_sock username filename = elim (ht_get nm.file_table filename) [
  | none ↦ send_message nm client_sock no_file
  | some meta ↦
      if not (str_eq meta.owner username)
      then send_message nm client_sock (not_owner (codes "delete a file."))
      else delete_checked nm client_sock meta filename
]

unfoldable pub handle_create_delete :
    NameServer → ℕ → Bytes → List Bytes → Bool → Times → NameServer
unfolding handle_create handle_delete
handle_create_delete nm client_sock username args is_create times =
    if ltb (length args) 2
    then send_message nm client_sock (usage (codes "Usage: CREATE/DELETE <filename>"))
    else if is_create
    then handle_create nm client_sock username (get_or args 1 []) times
    else handle_delete nm client_sock username (get_or args 1 [])

-- WRITE and UNDO want the right to write, READ and STREAM that to read.
unfoldable pub required_perm : Bytes → ℕ
required_perm cmd = if str_eq cmd (codes "WRITE") || str_eq cmd (codes "UNDO") then b'W' else b'R'

abbrev pub touch : ℤ → FileMetadata → FileMetadata
touch now m = record m { last_accessed = now }

unfoldable pub handle_read_write_stream : NameServer → ℕ → Bytes → List Bytes → ℤ → NameServer
unfolding required_perm
handle_read_write_stream nm client_sock username args now =
    if ltb (length args) 2
    then send_message nm client_sock (usage (codes "Missing filename."))
    else let filename = get_or args 1 [] in
      elim (ht_get nm.file_table filename) [
        | none ↦ send_message nm client_sock no_file
        | some meta ↦
            if not (check_access meta username (required_perm (get_or args 0 [])))
            then send_message nm client_sock (denied (required_perm (get_or args 0 [])))
            else let nm₁ = record nm {
              file_table = ht_modify nm.file_table filename (touch now);
            } in
              elim (find_ss nm.ss_list meta.ss_ip meta.ss_client_port) [
                | none ↦ send_message nm₁ client_sock offline
                | some ss ↦ send_message nm₁ client_sock (go_to meta.ss_ip meta.ss_client_port)
              ]
      ]

-- `lru_get` returns NULL, so there is never a cached text.
unfoldable pub handle_info : NameServer → ℕ → Bytes → List Bytes → NameServer
handle_info nm client_sock username args =
    if ltb (length args) 2
    then send_message nm client_sock (usage (codes "Usage: INFO <filename>"))
    else elim (ht_get nm.file_table (get_or args 1 [])) [
      | none ↦ send_message nm client_sock no_file
      | some meta ↦
          if not (check_access meta username b'R')
          then send_message nm client_sock read_denied
          else send_message nm client_sock (file_info meta)
    ]

abbrev pub grant : Bytes → ℕ → FileMetadata → FileMetadata
grant user perm m = record m { access_list = add_access m.access_list user perm }

abbrev pub revoke : Bytes → FileMetadata → FileMetadata
revoke user m = record m { access_list = remove_access m.access_list user }

abbrev pub access_usage : Bytes
access_usage =
    codes "Usage:\n  ADDACCESS -R|-W <filename> <username>\n  REMACCESS <filename> <username>"

-- What the arguments of ADDACCESS and REMACCESS ask for.
pub data AccessRequest : Type 0 where
  add : (filename target_user : Bytes) (perm : ℕ) → AccessRequest
  remove : (filename target_user : Bytes) → AccessRequest
  invalid : Message → AccessRequest

unfoldable pub parse_access : List Bytes → AccessRequest
parse_access args =
    let cmd = get_or args 0 [] in
    if str_eq cmd (codes "ADDACCESS") && length args == 4
    then if str_eq (get_or args 1 []) (codes "-W")
      then add (get_or args 2 []) (get_or args 3 []) b'W'
      else if str_eq (get_or args 1 []) (codes "-R")
      then add (get_or args 2 []) (get_or args 3 []) b'R'
      else invalid bad_flag
    else if str_eq cmd (codes "REMACCESS") && length args == 3
    then remove (get_or args 1 []) (get_or args 2 [])
    else invalid (usage access_usage)

-- The change `f` of the metadata of a file, by its owner alone.
unfoldable pub change_access :
    NameServer → ℕ → Bytes → Bytes → (FileMetadata → FileMetadata) → Message → NameServer
change_access nm client_sock username filename f done = elim (ht_get nm.file_table filename) [
  | none ↦ send_message nm client_sock no_file
  | some meta ↦
      if not (str_eq meta.owner username)
      then send_message nm client_sock (not_owner (codes "change permissions."))
      else nm_save_files (
          send_message (record nm { file_table = ht_modify nm.file_table filename f }) client_sock
            done)
]

abbrev pub serve_access : NameServer → ℕ → Bytes → AccessRequest → NameServer
serve_access nm client_sock username (add f u perm) =
    change_access nm client_sock username f (grant u perm) granted
serve_access nm client_sock username (remove f u) =
    change_access nm client_sock username f (revoke u) removed
serve_access nm client_sock username (invalid error) = send_message nm client_sock error

unfoldable pub handle_access : NameServer → ℕ → Bytes → List Bytes → NameServer
unfolding parse_access change_access
handle_access nm client_sock username args =
    serve_access nm client_sock username (parse_access args)

-- `strstr(s, "c")` for one byte.
unfoldable pub has_char : Bytes → ℕ → Bool
has_char [] c = false
has_char (d ∷ s) c = d == c || has_char s c

unfoldable pub visible : Bool → Bytes → List FileMetadata → List FileMetadata
visible show_all username [] = []
visible show_all username (m ∷ l) =
    if show_all || check_access m username b'R'
    then m ∷ visible show_all username l
    else visible show_all username l

unfoldable pub handle_view : NameServer → ℕ → Bytes → List Bytes → NameServer
unfolding visible has_char
handle_view nm client_sock username args =
    let flags = get_or args 1 [] in
    send_message nm client_sock (
      file_list (has_char flags b'l')
        (visible (has_char flags b'a') username (all_files nm.file_table)))

unfoldable pub handle_list : NameServer → ℕ → NameServer
handle_list nm client_sock = send_message nm client_sock (user_list nm.all_users_list)
