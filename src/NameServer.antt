-- ===== src/NameServer.antt =====
-- The state of the name server (include/name_server.h) and the parts of it that the handlers share:
-- the list of storage servers and the round robin over it (name_server/ss_handler.c), the users and
-- the connected clients (name_server/client_handler.c), and the saved state. A handler runs as one
-- step here: its mutexes are left out, and what other threads do between two of its own steps.

pub mod Handlers
pub mod Exec
pub mod Commands
pub mod Ownership
pub mod Invariant
pub mod Restart
pub mod Reload
pub mod Saved
pub mod Survival
pub mod Persisted
pub mod SsHandler
pub mod Registration
pub mod StorageSession
pub mod StorageTable
pub mod Serial
pub mod Listing
pub mod Messages
pub mod Texts
pub mod Catalog
pub mod Refinement
pub mod ClientHandler
pub mod Answers
pub mod Users
pub mod Servers
pub mod Create
pub mod Delete
pub mod StaleDelete
pub mod Access
use distributed_concurrent_f.Prelude.{
  ℕ, zero, suc, ◌+◌, Bool, true, false, ◌&&◌, ◌||◌, List, [], ◌∷◌, ◌++◌, Option, none, some, Bytes,
  codes, ℤ, int_eq, str_eq, copy_name, leb, ◌==◌, if◌then◌else◌, length, take, get_elem?,
}
use distributed_concurrent_f.AccessList.{AccessNode, get_access}
use distributed_concurrent_f.HashTable.{HashTable, ht_size}
use distributed_concurrent_f.HashTable.Chain.{FileMetadata}
use distributed_concurrent_f.Trie.{TrieNode}
use distributed_concurrent_f.Persistence.{files_text, users_text}

pub record StorageServerInfo : Type 0 where
  pub socket : ℕ
  pub ip : Bytes
  pub client_port : ℤ

pub record ClientInfo : Type 0 where
  pub socket : ℕ
  pub username : Bytes

-- What the name server sends: commands to a storage server, and replies to a client.
pub data Message : Type 0 where
  create_file : Bytes → Message  -- CREATE <file>
  delete_file : Bytes → Message  -- DELETE <file>
  usage : Bytes → Message  -- 400 ERROR: <text>, the usage of the command
  bad_flag : Message  -- 400 ERROR: Invalid permission flag. Use -R or -W.
  not_owner : Bytes → Message  -- 401 ERROR: Only the owner can <text>
  denied : ℕ → Message  -- 401 ERROR: <permission> access denied.
  read_denied : Message  -- 401 ERROR: Read access denied.
  no_file : Message  -- 404 ERROR: File not found.
  exists : Message  -- 409 ERROR: File already exists.
  invalid_init : Message  -- 400 ERROR: Invalid INIT_SS
  invalid_client : Message  -- 400 ERROR: Invalid INIT_CLIENT
  invalid_first : Message  -- 400 ERROR: Invalid INIT message.
  no_servers : Message  -- 503 ERROR: No storage servers available.
  offline : Message  -- 503 ERROR: Storage server for this file is offline.
  created : Message  -- 201 OK: File created successfully!
  deleted : Message  -- 200 OK: File deleted successfully.
  granted : Message  -- 200 OK: Access granted.
  removed : Message  -- 200 OK: Access removed.
  go_to : Bytes → ℤ → Message  -- 202 OK <ip>:<port>
  file_info : FileMetadata → Message  -- the INFO text of the file
  file_list : Bool → List FileMetadata → Message  -- the VIEW table, with details or without
  unknown_command : Message  -- 400 ERROR: Unknown command.
  output : Bytes → Message  -- what EXEC sends of a run
  user_list : List Bytes → Message  -- the names of the registered users

-- `can_save` says whether the state files can be opened for writing; `saved_files` and `saved_users`
-- are what they hold, and `sends` is what has been sent, with the sockets.
pub record NameServer : Type 0 where
  pub file_table : HashTable
  pub file_trie : TrieNode
  pub client_list : List ClientInfo
  pub ss_list : List StorageServerInfo
  pub all_users_list : List Bytes
  pub next_ss_index : ℕ
  pub can_save : Bool
  pub saved_files : Option Bytes
  pub saved_users : Option Bytes
  pub sends : List (ℕ × Message)

abbrev pub send_message : NameServer → ℕ → Message → NameServer
send_message nm sock message = record nm { sends = nm.sends ++ (sock, message) ∷ [] }

-- The files of the buckets from index `ht_size - n` on, in the order of the loops over the table.
unfoldable pub files_from : ℕ → ℕ → HashTable → List FileMetadata
files_from zero i table = []
files_from (suc n) i table = table i ++ files_from n (i + 1) table

unfoldable pub all_files : HashTable → List FileMetadata
unfolding files_from
all_files table = files_from ht_size 0 table

unfoldable pub nm_save_files : NameServer → NameServer
nm_save_files nm =
    if nm.can_save
    then record nm { saved_files = some (files_text (all_files nm.file_table)) }
    else nm

unfoldable pub nm_save_users : NameServer → NameServer
nm_save_users nm =
    if nm.can_save then record nm { saved_users = some (users_text nm.all_users_list) } else nm

unfoldable pub add_ss : NameServer → ℕ → Bytes → ℤ → NameServer
add_ss nm sock ip client_port = record nm {
  ss_list = record { socket = sock; ip = take 15 ip; client_port = client_port } ∷ nm.ss_list;
}

unfoldable pub drop_ss : List StorageServerInfo → ℕ → List StorageServerInfo
drop_ss [] sock = []
drop_ss (s ∷ l) sock = if s.socket == sock then l else s ∷ drop_ss l sock

unfoldable pub remove_ss : NameServer → ℕ → NameServer
unfolding drop_ss
remove_ss nm sock = record nm { ss_list = drop_ss nm.ss_list sock }

-- The walk of `next_ss_index` steps from the head; the index is reset when it is past the end.
unfoldable pub get_ss_for_new_file : NameServer → Option StorageServerInfo × NameServer
get_ss_for_new_file nm = elim nm.ss_list [
  | [] ↦ (none, nm)
  | _ ∷ _ ↦
      let i = if leb (length nm.ss_list) nm.next_ss_index then 0 else nm.next_ss_index in
      (get_elem? nm.ss_list i, record nm { next_ss_index = i + 1 })
]

-- The loop that looks for the storage server of a file.
unfoldable pub find_ss : List StorageServerInfo → Bytes → ℤ → Option StorageServerInfo
find_ss [] ip port = none
find_ss (s ∷ l) ip port =
    if str_eq s.ip ip && int_eq s.client_port port then some s else find_ss l ip port

unfoldable pub add_client : NameServer → ℕ → Bytes → NameServer
unfolding copy_name
add_client nm sock username = record nm {
  client_list = record { socket = sock; username = copy_name username } ∷ nm.client_list;
}

unfoldable pub drop_client : List ClientInfo → ℕ → List ClientInfo
drop_client [] sock = []
drop_client (c ∷ l) sock = if c.socket == sock then l else c ∷ drop_client l sock

unfoldable pub remove_client : NameServer → ℕ → NameServer
unfolding drop_client
remove_client nm sock = record nm { client_list = drop_client nm.client_list sock }

unfoldable pub is_user : List Bytes → Bytes → Bool
is_user [] username = false
is_user (u ∷ l) username = if str_eq u username then true else is_user l username

unfoldable pub nm_register_persistent_user : NameServer → Bytes → NameServer
unfolding nm_save_users copy_name
nm_register_persistent_user nm username =
    if is_user nm.all_users_list username
    then nm
    else nm_save_users (record nm { all_users_list = copy_name username ∷ nm.all_users_list })

-- The owner may do all; of the others, who may write may read.
unfoldable pub check_access : FileMetadata → Bytes → ℕ → Bool
check_access metadata username required_perm =
    if str_eq metadata.owner username
    then true
    else let perm = get_access metadata.access_list username in
      if required_perm == b'R' && (perm == b'R' || perm == b'W')
      then true
      else required_perm == b'W' && perm == b'W'
