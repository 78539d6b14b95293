-- ===== src/NameServer/Restart.antt =====
-- The start and the end of the name server: `nm_create` and `nm_free` of name_server/name_server.c,
-- with the loading of name_server/persistence.c. Directories, mutexes and the listening socket are
-- left out; the clock does not tick while the files are loaded.
use distributed_concurrent_f.Prelude.{
  Bool, List, [], ◌∷◌, Option, none, some, Bytes, ℤ, ltb, length, copy_name, if◌then◌else◌,
}
use distributed_concurrent_f.CString.{trim_newline, fgets_lines}
use distributed_concurrent_f.HashTable.{ht_create, ht_insert}
use distributed_concurrent_f.Trie.{trie_create_node, trie_insert}
use distributed_concurrent_f.Persistence.{load_line}
use distributed_concurrent_f.NameServer.{NameServer, nm_save_files, nm_save_users}

-- The round of the loop for one line.
unfoldable pub load_file : ℤ → NameServer → Bytes → NameServer
load_file now nm line = elim (load_line now line) [
  | none ↦ nm
  | some meta ↦ record nm {
    file_table = (ht_insert nm.file_table meta).1;
    file_trie = trie_insert nm.file_trie meta.filename;
  }
]

unfoldable pub load_files : ℤ → NameServer → List Bytes → NameServer
unfolding load_file
load_files now nm [] = nm
load_files now nm (line ∷ lines) = load_files now (load_file now nm line) lines

unfoldable pub nm_load_files : NameServer → ℤ → NameServer
unfolding load_files
nm_load_files nm now = elim nm.saved_files [
  | none ↦ nm
  | some text ↦ load_files now nm (fgets_lines text)
]

-- Each user goes to the head of the list.
unfoldable pub load_users : List Bytes → List Bytes → List Bytes
load_users users [] = users
load_users users (line ∷ lines) =
    let user = trim_newline line in
    load_users (if ltb 0 (length user) then copy_name user ∷ users else users) lines

unfoldable pub nm_load_users : NameServer → NameServer
unfolding load_users
nm_load_users nm = elim nm.saved_users [
  | none ↦ nm
  | some text ↦ record nm { all_users_list = load_users nm.all_users_list (fgets_lines text) }
]

-- The `calloc`ed server with its empty table and trie, over the state files that are there.
abbrev pub blank : Bool → Option Bytes → Option Bytes → NameServer
blank can_save saved_files saved_users = record {
  file_table = ht_create;
  file_trie = trie_create_node;
  client_list = [];
  ss_list = [];
  all_users_list = [];
  next_ss_index = 0;
  can_save = can_save;
  saved_files = saved_files;
  saved_users = saved_users;
  sends = [];
}

unfoldable pub nm_create : Bool → Option Bytes → Option Bytes → ℤ → NameServer
unfolding nm_load_files nm_load_users
nm_create can_save saved_files saved_users now =
    nm_load_users (nm_load_files (blank can_save saved_files saved_users) now)

-- What `nm_free` does before it gives the memory back.
unfoldable pub nm_free : NameServer → NameServer
nm_free nm = nm_save_users (nm_save_files nm)

-- The server is ended and started again.
abbrev pub restart : NameServer → ℤ → NameServer
restart nm now = nm_create nm.can_save (nm_free nm).saved_files (nm_free nm).saved_users now
