-- ===== src/Persistence.antt =====
-- The two text files of name_server/persistence.c: the line of a file, which `nm_save_files` prints
-- and `nm_load_files` reads, and the file of the users. `created_at` and `last_accessed` are not saved.
pub mod Entry
pub mod Line
pub mod Survives
use distributed_concurrent_f.Prelude.{
  ℕ, Bool, true, false, List, [], ◌∷◌, ◌++◌, Option, none, some, Bytes, ℤ, ltb, ◌==◌, if◌then◌else◌,
  length, take, get_or, copy_name,
}
use distributed_concurrent_f.CString.{split_string, trim_newline, atoi}
use distributed_concurrent_f.CString.Lines.{unlines}
use distributed_concurrent_f.Decimal.{print_int}
use distributed_concurrent_f.AccessList.{AccessNode, add_access}
use distributed_concurrent_f.HashTable.Chain.{FileMetadata}

-- `"%s,%c;"` for each entry of the access list
unfoldable pub access_text : List AccessNode → Bytes
access_text [] = []
access_text (n ∷ l) = n.username ++ b',' ∷ n.permission ∷ b';' ∷ access_text l

-- `"%s|%s|%s|%d|"`, the access list, and `"|%ld|%d|%d|%ld\n"` without its newline
unfoldable pub file_line : FileMetadata → Bytes
unfolding access_text
file_line m =
    m.filename
    ++ b'|'
      ∷ (m.owner
          ++ b'|'
            ∷ (m.ss_ip
                ++ b'|'
                  ∷ (print_int m.ss_client_port
                      ++ b'|'
                        ∷ (access_text m.access_list
                            ++ b'|'
                              ∷ (print_int m.size
                                  ++ b'|'
                                    ∷ (print_int m.word_count
                                        ++ b'|'
                                          ∷ (print_int m.char_count
                                              ++ b'|' ∷ print_int m.last_modified)))))))

-- The lines of all files.
unfoldable pub file_lines : List FileMetadata → List Bytes
file_lines [] = []
file_lines (m ∷ l) = file_line m ∷ file_lines l

unfoldable pub files_text : List FileMetadata → Bytes
unfolding file_lines file_line
files_text l = unlines (file_lines l)

unfoldable pub users_text : List Bytes → Bytes
users_text l = unlines l

-- One entry of the saved list; a pair that has not two parts is passed over.
unfoldable pub load_entry : List AccessNode → Bytes → List AccessNode
load_entry l entry =
    let pair = split_string entry b',' in
    if length pair == 2 then add_access l (get_or pair 0 []) (get_or (get_or pair 1 []) 0 0) else l

unfoldable pub load_entries : List AccessNode → List Bytes → List AccessNode
unfolding load_entry
load_entries l [] = l
load_entries l (entry ∷ entries) = load_entries (load_entry l entry) entries

-- The metadata that a line stands for, `now` being `time(NULL)`; a line of less than nine parts is
-- passed over.
unfoldable pub load_line : ℤ → Bytes → Option FileMetadata
unfolding load_entries
load_line now line =
    let parts = split_string (trim_newline line) b'|' in
    let owner = copy_name (get_or parts 1 []) in
    if ltb (length parts) 9
    then none
    else some (record {
      filename = copy_name (get_or parts 0 []);
      owner = owner;
      access_list = load_entries (add_access [] owner b'W') (split_string (get_or parts 4 []) b';');
      ss_ip = take 15 (get_or parts 2 []);
      ss_client_port = atoi (get_or parts 3 []);
      size = atoi (get_or parts 5 []);
      word_count = atoi (get_or parts 6 []);
      char_count = atoi (get_or parts 7 []);
      created_at = now;
      last_modified = atoi (get_or parts 8 []);
      last_accessed = now;
    })
