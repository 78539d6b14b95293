-- ===== src/StorageServer/Scan.antt =====
-- The registration of a storage server at the name server: `ss_scan_directory` of
-- storage_server/persistence.c, and the message that `ss_connect_to_nm` of
-- storage_server/storage_server.c sends. `readdir` is the list of the names in the directory, and a
-- buffer of 4096 bytes holds the list of files, whose end is not checked.
use distributed_concurrent_f.Prelude.{
  Bool, true, false, ◌&&◌, ◌||◌, List, [], ◌∷◌, ◌++◌, Option, none, some, Bytes, codes, ℤ, str_eq,
  take, ◌==◌, if◌then◌else◌,
}
use distributed_concurrent_f.Decimal.{print_int}

unfoldable pub starts_with : Bytes → Bytes → Bool
starts_with [] s = true
starts_with (c ∷ prefix) [] = false
starts_with (c ∷ prefix) (d ∷ s) = c == d && starts_with prefix s

-- `strstr(s, needle) != NULL`
unfoldable pub contains : Bytes → Bytes → Bool
unfolding starts_with
contains needle [] = starts_with needle []
contains needle (c ∷ s) = starts_with needle (c ∷ s) || contains needle s

-- The names that the loop passes over.
unfoldable pub is_skipped : Bytes → Bool
unfolding contains
is_skipped name =
    (str_eq name (codes ".") || str_eq name (codes "..")) || contains (codes ".undo") name

-- The loop over the directory; `file_list_str` is what has been written.
unfoldable pub scan_loop : List Bytes → Bool → Bytes → Bytes
unfolding is_skipped
scan_loop [] first file_list_str = file_list_str
scan_loop (name ∷ dir) first file_list_str = elim (is_skipped name) [
  | true ↦ scan_loop dir first file_list_str
  | false ↦
      scan_loop dir false ((if first then file_list_str else file_list_str ++ b',' ∷ []) ++ name)
]

-- `none` is a directory that cannot be opened.
unfoldable pub ss_scan_directory : Option (List Bytes) → Bytes
unfolding scan_loop
ss_scan_directory none = codes "[]"
ss_scan_directory (some dir) = scan_loop dir true (codes "[") ++ codes "]"

-- `INIT_SS <client_port> [file1,file2]`
unfoldable pub init_text : ℤ → Option (List Bytes) → Bytes
unfolding ss_scan_directory
init_text client_port dir = codes "INIT_SS " ++ print_int client_port ++ 32 ∷ ss_scan_directory dir

-- The text in its buffer of 4096 bytes.
abbrev pub init_message : ℤ → Option (List Bytes) → Bytes
init_message client_port dir = take 4095 (init_text client_port dir)
