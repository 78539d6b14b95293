-- ===== src/NameServer/SsHandler.antt =====
-- The connection of a storage server in name_server/ss_handler.c: its registration, the messages
-- that it sends later, and its end. `ip` is the address of the connection, `now` is `time(NULL)`.
use distributed_concurrent_f.Prelude.{
  ℕ, ◌-◌, Bool, not, ◌&&◌, ◌||◌, List, [], ◌∷◌, none, some, Bytes, codes, ℤ, ltb, ◌==◌, str_eq,
  if◌then◌else◌, length, take, drop, get_or,
}
use distributed_concurrent_f.CString.{split_string, atoi}
use distributed_concurrent_f.HashTable.{HashTable, ht_get, ht_modify}
use distributed_concurrent_f.HashTable.Chain.{FileMetadata}
use distributed_concurrent_f.NameServer.{
  NameServer, invalid_init, send_message, nm_save_files, add_ss, remove_ss,
}

-- `strncpy(meta->ss_ip, ss_ip, MAX_IP_LEN - 1); meta->ss_client_port = client_port;`
abbrev pub move : Bytes → ℤ → FileMetadata → FileMetadata
move ip client_port m = record m { ss_ip = take 15 ip; ss_client_port = client_port }

-- The loop over the listed files; one that the table does not know is passed over.
unfoldable pub relocate : HashTable → Bytes → ℤ → List Bytes → HashTable
relocate table ip client_port [] = table
relocate table ip client_port (f ∷ files) =
    relocate (ht_modify table f (move ip client_port)) ip client_port files

-- `[file1,file2]` without its first and its last byte; of one byte nothing is left, where the source
-- reads behind the terminator
unfoldable pub listed_files : Bytes → List Bytes
listed_files file_list_str =
    split_string (drop 1 (take (length file_list_str - 1) file_list_str)) 44

unfoldable pub register_ss : NameServer → ℕ → Bytes → ℤ → List Bytes → NameServer
unfolding relocate
register_ss nm ss_sock ip client_port files =
    let nm' = add_ss nm ss_sock ip client_port in
    record nm' { file_table = relocate nm'.file_table ip client_port files }

abbrev pub is_no_registration : List Bytes → Bool
is_no_registration parts =
    ltb (length parts) 3 || not (str_eq (get_or parts 0 []) (codes "INIT_SS"))

-- The handling of the first message, `INIT_SS <client_port> [file1,file2,...]`.
unfoldable pub nm_handle_ss_init : NameServer → ℕ → Bytes → Bytes → NameServer
unfolding listed_files register_ss
nm_handle_ss_init nm ss_sock ip buffer =
    let parts = split_string buffer 32 in
    if is_no_registration parts
    then send_message nm ss_sock invalid_init
    else register_ss nm ss_sock ip (atoi (get_or parts 1 [])) (listed_files (get_or parts 2 []))

abbrev pub set_stats : ℤ → ℤ → ℤ → ℤ → FileMetadata → FileMetadata
set_stats size words chars now m = record m {
  size = size;
  word_count = words;
  char_count = chars;
  last_modified = now;
}

abbrev pub info_file : NameServer → Bytes → (FileMetadata → FileMetadata) → NameServer
info_file nm filename f = elim (ht_get nm.file_table filename) [
  | none ↦ nm
  | some meta ↦ nm_save_files (record nm { file_table = ht_modify nm.file_table filename f })
]

-- One later message: `INFO_UPDATE <file> <size> <words> <chars>` has an effect, others have none.
unfoldable pub nm_handle_ss_message : NameServer → Bytes → ℤ → NameServer
nm_handle_ss_message nm buffer now =
    let parts = split_string buffer 32 in
    if ltb (length parts) 2
    then nm
    else if str_eq (get_or parts 0 []) (codes "INFO_UPDATE") && length parts == 5
    then info_file nm (get_or parts 1 []) (
        set_stats (atoi (get_or parts 2 [])) (atoi (get_or parts 3 [])) (atoi (get_or parts 4 []))
          now)
    else nm

-- The loop over the later messages, each with the time at which it comes.
unfoldable pub serve_ss : NameServer → List (Bytes × ℤ) → NameServer
unfolding nm_handle_ss_message
serve_ss nm [] = nm
serve_ss nm ((buffer, now) ∷ messages) = serve_ss (nm_handle_ss_message nm buffer now) messages

-- The thread of a storage server, up to its end.
unfoldable pub nm_handle_ss_messages : NameServer → ℕ → List (Bytes × ℤ) → NameServer
unfolding serve_ss
nm_handle_ss_messages nm ss_sock messages = remove_ss (serve_ss nm messages) ss_sock

-- A connection that says that it is one of a storage server: it is closed if its first message is no
-- registration.
unfoldable pub serve_storage : NameServer → ℕ → Bytes → Bytes → List (Bytes × ℤ) → NameServer
unfolding nm_handle_ss_init nm_handle_ss_messages
serve_storage nm ss_sock ip buffer messages =
    if is_no_registration (split_string buffer 32)
    then nm_handle_ss_init nm ss_sock ip buffer
    else nm_handle_ss_messages (nm_handle_ss_init nm ss_sock ip buffer) ss_sock messages
