-- ===== src/NameServer/Serial.antt =====
-- The handlers of all connections of the name server one after the other: those of name_server/name_server.c,
-- name_server/client_handler.c and name_server/ss_handler.c in any order, each of them run to its end
-- before the next begins. The threads of the source may overlap further: no lock is held from the
-- look-up of a file to the change of it, see StaleDelete.
pub mod Trail
use distributed_concurrent_f.Prelude.{
  ℕ, false, List, [], ◌∷◌, some, Bytes, ℤ, str_eq, get_or, All, ◌≡◌, ◌∙◌, refl, ap, arith,
  Bool-cases, Option-cases, inl, inr,
}
use distributed_concurrent_f.CString.{split_string, atoi}
use distributed_concurrent_f.AccessList.{AccessNode}
use distributed_concurrent_f.HashTable.{HashTable, ht_get}
use distributed_concurrent_f.HashTable.Chain.{FileMetadata}
use distributed_concurrent_f.HashTable.Laws.{IsTable}
use distributed_concurrent_f.NameServer.{NameServer, remove_client, remove_ss, add_ss}
use distributed_concurrent_f.NameServer.Commands.{Outside, nm_command}
use distributed_concurrent_f.NameServer.ClientHandler.{enter}
use distributed_concurrent_f.NameServer.ClientHandler.Laws.{enter_table}
use distributed_concurrent_f.NameServer.Invariant.{nm_command-IsTable}
use distributed_concurrent_f.NameServer.Ownership.{rights_of, nm_command-rights}
use distributed_concurrent_f.NameServer.SsHandler.{
  listed_files, register_ss, is_no_registration, nm_handle_ss_init, nm_handle_ss_message,
}
use distributed_concurrent_f.NameServer.StorageTable.{message-IsTable, init-IsTable}
use distributed_concurrent_f.NameServer.StorageSession.{message_Keeps, relocate_rights}

-- One handler of one thread.
pub data Happening : Type 0 where
  arrives : (sock : ℕ) (user : Bytes) → Happening
  commands : (sock : ℕ) (user buffer : Bytes) (outside : Outside) → Happening
  leaves : (sock : ℕ) → Happening
  registers : (sock : ℕ) (ip buffer : Bytes) → Happening
  reports : (buffer : Bytes) (now : ℤ) → Happening
  fails : (sock : ℕ) → Happening

abbrev pub happen : NameServer → Happening → NameServer
happen nm (arrives sock user) = enter nm sock user
happen nm (commands sock user buffer outside) = nm_command nm sock user buffer outside
happen nm (leaves sock) = remove_client nm sock
happen nm (registers sock ip buffer) = nm_handle_ss_init nm sock ip buffer
happen nm (reports buffer now) = nm_handle_ss_message nm buffer now
happen nm (fails sock) = remove_ss nm sock

abbrev pub run : NameServer → List Happening → NameServer
run nm [] = nm
run nm (h ∷ happenings) = run (happen nm h) happenings

pub happen-IsTable :
    (nm : NameServer) (h : Happening) → IsTable nm.file_table → IsTable (happen nm h).file_table
unfolding remove_client remove_ss
happen-IsTable nm (arrives sock user) v = rw (enter_table nm sock user) v
happen-IsTable nm (commands sock user buffer outside) v =
    nm_command-IsTable nm sock user buffer outside v
happen-IsTable nm (leaves sock) v = v
happen-IsTable nm (registers sock ip buffer) v = init-IsTable nm sock ip buffer v
happen-IsTable nm (reports buffer now) v = message-IsTable nm buffer now v
happen-IsTable nm (fails sock) v = v

pub init_rights :
    (nm : NameServer) (sock : ℕ) (ip buffer q : Bytes)
    → rights_of (nm_handle_ss_init nm sock ip buffer).file_table q ≡ rights_of nm.file_table q
unfolding nm_handle_ss_init register_ss add_ss
init_rights nm sock ip buffer q =
    let parts = split_string buffer 32 in
    let moved =
      relocate_rights nm.file_table ip (atoi (get_or parts 1 [])) (listed_files (get_or parts 2 []))
        q in
    elim (Bool-cases (is_no_registration parts)) [
      | inl e ↦ rw (e, nm_handle_ss_init) refl
      | inr e ↦ rw (e, nm_handle_ss_init) moved
    ]
