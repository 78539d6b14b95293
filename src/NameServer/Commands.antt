-- ===== src/NameServer/Commands.antt =====
-- The commands of one client: `nm_handle_client_request` of name_server/client_handler.c, and the
-- checks of name_server/exec_handler.c; what EXEC does behind them is `execute`.
use distributed_concurrent_f.Prelude.{
  ℕ, ◌||◌, true, false, not, List, [], ◌∷◌, none, some, Bytes, codes, ℤ, ltb, str_eq, if◌then◌else◌,
  length, get_or,
}
use distributed_concurrent_f.CString.{split_string, trim_newline}
use distributed_concurrent_f.HashTable.{ht_get}
use distributed_concurrent_f.NameServer.{
  NameServer, usage, no_file, read_denied, offline, unknown_command, output, send_message, find_ss,
  check_access,
}
use distributed_concurrent_f.NameServer.Exec.{Shell, execute}
use distributed_concurrent_f.NameServer.Handlers.{
  Times, handle_view, handle_create_delete, handle_read_write_stream, handle_info, handle_access,
  handle_list,
}

-- The state of the network and of the shell, and the clock, at one command.
pub record Outside : Type 0 where
  pub shell : Shell
  pub times : Times
  pub now : ℤ

unfoldable pub send_all : NameServer → ℕ → List Bytes → NameServer
send_all nm sock [] = nm
send_all nm sock (text ∷ texts) = send_all (send_message nm sock (output text)) sock texts

unfoldable pub handle_exec : NameServer → ℕ → Bytes → List Bytes → Outside → NameServer
unfolding send_all execute
handle_exec nm client_sock username args outside =
    if ltb (length args) 2
    then send_message nm client_sock (usage (codes "Usage: EXEC <filename>"))
    else let filename = get_or args 1 [] in
      elim (ht_get nm.file_table filename) [
        | none ↦ send_message nm client_sock no_file
        | some meta ↦
            if not (check_access meta username b'R')
            then send_message nm client_sock read_denied
            else elim (find_ss nm.ss_list meta.ss_ip meta.ss_client_port) [
              | none ↦ send_message nm client_sock offline
              | some ss ↦
                  send_all nm client_sock
                    (execute outside.shell meta.ss_ip meta.ss_client_port filename)
            ]
      ]

-- The chain of `strcmp` on the first word.
unfoldable pub dispatch : NameServer → ℕ → Bytes → Bytes → List Bytes → Outside → NameServer
unfolding handle_exec handle_create_delete handle_read_write_stream handle_info handle_access
    handle_view handle_list
dispatch nm client_sock username cmd args outside =
    if str_eq cmd (codes "VIEW")
    then handle_view nm client_sock username args
    else if str_eq cmd (codes "CREATE")
    then handle_create_delete nm client_sock username args true outside.times
    else if str_eq cmd (codes "DELETE")
    then handle_create_delete nm client_sock username args false outside.times
    else if str_eq cmd (codes "READ")
        || (str_eq cmd (codes "WRITE")
            || (str_eq cmd (codes "STREAM") || str_eq cmd (codes "UNDO")))
    then handle_read_write_stream nm client_sock username args outside.now
    else if str_eq cmd (codes "INFO")
    then handle_info nm client_sock username args
    else if str_eq cmd (codes "ADDACCESS") || str_eq cmd (codes "REMACCESS")
    then handle_access nm client_sock username args
    else if str_eq cmd (codes "EXEC")
    then handle_exec nm client_sock username args outside
    else if str_eq cmd (codes "LIST")
    then handle_list nm client_sock
    else send_message nm client_sock unknown_command

-- One round of the command loop; a message of blanks is passed over.
unfoldable pub nm_command : NameServer → ℕ → Bytes → Bytes → Outside → NameServer
unfolding dispatch
nm_command nm client_sock username buffer outside = elim (split_string (trim_newline buffer) 32) [
  | [] ↦ nm
  | cmd ∷ rest ↦ dispatch nm client_sock username cmd (cmd ∷ rest) outside
]
