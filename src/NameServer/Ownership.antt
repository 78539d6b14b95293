-- ===== src/NameServer/Ownership.antt =====
-- No command of a client harms a file of another owner.
use mathlib.Core.Option
use distributed_concurrent_f.Prelude.{
  ℕ, Bool, true, false, List, [], ◌∷◌, ◌≡◌, refl, arith, Bytes, Option, some, Option-cases,
  List-cases, inl, inr, ℤ, str_eq, str_eq_iff, get_or,
}
use distributed_concurrent_f.CString.{split_string, trim_newline}
use distributed_concurrent_f.AccessList.{AccessNode}
use distributed_concurrent_f.HashTable.{HashTable, ht_get, ht_insert, ht_modify}
use distributed_concurrent_f.HashTable.Chain.{FileMetadata}
use distributed_concurrent_f.HashTable.Laws.{IsTable, get-insert, get-modify}
use distributed_concurrent_f.NameServer.{NameServer}
use distributed_concurrent_f.NameServer.Handlers.{
  Times, touch, handle_view, handle_create, handle_delete, handle_create_delete,
  handle_read_write_stream, handle_info, handle_list,
}
use distributed_concurrent_f.NameServer.Create.{creates, creates_table}
use distributed_concurrent_f.NameServer.Delete.{handle_delete_lem}
use distributed_concurrent_f.NameServer.Access.{handle_access-owner}
use distributed_concurrent_f.NameServer.Exec.{execute}
use distributed_concurrent_f.NameServer.Commands.{
  Outside, send_all, handle_exec, dispatch, nm_command,
}

-- The owner and the access list of a file.
abbrev pub rights : FileMetadata → Bytes × List AccessNode
rights m = (m.owner, m.access_list)

abbrev pub rights_of : HashTable → Bytes → Option (Bytes × List AccessNode)
rights_of t q = Option.map rights (ht_get t q)

module _ (nm : NameServer) (sock : ℕ) (username q : Bytes) (m : FileMetadata)
    (there : ht_get nm.file_table q ≡ some m) (other : str_eq m.owner username ≡ false) where
  insert_keeps : (n : FileMetadata) → ht_get (ht_insert nm.file_table n).1 q ≡ some m
  insert_keeps n = ground (arith, there, get-insert nm.file_table n q, str_eq_iff q n.filename)

  create_keeps :
      (filename : Bytes) (times : Times)
      → ht_get (handle_create nm sock username filename times).file_table q ≡ some m
  create_keeps filename times = elim (Option-cases (creates nm username filename times)) [
    | inl e ↦ rw (creates_table nm sock username filename times, e) there
    | inr (n, e) ↦ rw (creates_table nm sock username filename times, e) (insert_keeps n)
  ]

  delete_keeps :
      (filename : Bytes)
      → IsTable nm.file_table
      → ht_get (handle_delete nm sock username filename).file_table q ≡ some m
  delete_keeps filename v =
      ground (
        arith,
        there,
        other,
        handle_delete_lem nm sock username filename q v,
        str_eq_iff q filename,
      )

  create_delete_keeps :
      (args : List Bytes) (is_create : Bool) (times : Times)
      → IsTable nm.file_table
      → ht_get (handle_create_delete nm sock username args is_create times).file_table q ≡ some m
  unfolding handle_create_delete
  create_delete_keeps args is_create times v =
      ground
        (arith, there, create_keeps (get_or args 1 []) times, delete_keeps (get_or args 1 []) v)

  touch_keeps :
      (f : Bytes) (now : ℤ) → rights_of (ht_modify nm.file_table f (touch now)) q ≡ some (rights m)
  touch_keeps f now = ground (arith, there, get-modify (touch now) (λ m. refl) nm.file_table f q)

  read_keeps :
      (args : List Bytes) (now : ℤ)
      → rights_of (handle_read_write_stream nm sock username args now).file_table q
        ≡ some (rights m)
  unfolding handle_read_write_stream
  read_keeps args now = ground (arith, there, touch_keeps (get_or args 1 []) now)

  info_keeps : (args : List Bytes) → (handle_info nm sock username args).file_table ≡ nm.file_table
  unfolding handle_info
  info_keeps args = ground arith

  view_keeps : (args : List Bytes) → (handle_view nm sock username args).file_table ≡ nm.file_table
  unfolding handle_view
  view_keeps args = refl

  list_keeps : (handle_list nm sock).file_table ≡ nm.file_table
  unfolding handle_list
  list_keeps = refl

pub send_all_table :
    (nm : NameServer) (sock : ℕ) (texts : List Bytes)
    → (send_all nm sock texts).file_table ≡ nm.file_table
unfolding send_all
send_all_table nm sock [] = refl
send_all_table nm sock (text ∷ texts) = send_all_table _ sock texts

pub exec_table :
    (nm : NameServer) (sock : ℕ) (username : Bytes) (args : List Bytes) (outside : Outside)
    → (handle_exec nm sock username args outside).file_table ≡ nm.file_table
unfolding handle_exec
exec_table nm sock username args outside =
    elim (Option-cases (ht_get nm.file_table (get_or args 1 []))) [
      | inl e ↦ ground (arith, e)
      | inr (m, e) ↦ ground (
        arith,
        e,
        send_all_table nm sock (execute outside.shell m.ss_ip m.ss_client_port (get_or args 1 [])),
      )
    ]

dispatch_keeps :
    (nm : NameServer) (sock : ℕ) (username q cmd : Bytes) (args : List Bytes) (outside : Outside)
    (m : FileMetadata)
    → ht_get nm.file_table q ≡ some m
    → str_eq m.owner username ≡ false
    → IsTable nm.file_table
    → rights_of (dispatch nm sock username cmd args outside).file_table q ≡ some (rights m)
unfolding dispatch
dispatch_keeps nm sock username q cmd args outside m there other v = ground (
  arith,
  there,
  view_keeps nm sock username q m there other args,
  create_delete_keeps nm sock username q m there other args true outside.times v,
  create_delete_keeps nm sock username q m there other args false outside.times v,
  read_keeps nm sock username q m there other args outside.now,
  info_keeps nm sock username q m there other args,
  handle_access-owner nm sock username q args m there other,
  exec_table nm sock username args outside,
  list_keeps nm sock username q m there other,
)

-- Whatever command a client sends, a file of a well-formed table whose owner is another user stays
-- in it, with the same owner and the same access list.
pub nm_command-rights :
    (nm : NameServer) (sock : ℕ) (username q buffer : Bytes) (outside : Outside) (m : FileMetadata)
    → ht_get nm.file_table q ≡ some m
    → str_eq m.owner username ≡ false
    → IsTable nm.file_table
    → rights_of (nm_command nm sock username buffer outside).file_table q ≡ some (rights m)
unfolding nm_command
nm_command-rights nm sock username q buffer outside m there other v =
    elim (List-cases (split_string (trim_newline buffer) 32)) [
      | inl e ↦ rw (e, nm_command) (ground (arith, there))
      | inr (cmd, rest, e) ↦
          rw (e, nm_command)
            (dispatch_keeps nm sock username q cmd (cmd ∷ rest) outside m there other v)
    ]
