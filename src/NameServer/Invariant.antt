-- ===== src/NameServer/Invariant.antt =====
-- Every command of a client leaves the file table well formed.
use distributed_concurrent_f.Prelude.{
  ℕ, Bool, true, false, List, [], ◌∷◌, ◌≡◌, refl, arith, Bytes, List-cases, inl, inr, ℤ, get_or,
  if◌then◌else◌,
}
use mathlib.Core.Logic.{◌⊎◌}
use distributed_concurrent_f.CString.{split_string, trim_newline}
use distributed_concurrent_f.HashTable.{HashTable, ht_modify}
use distributed_concurrent_f.HashTable.Chain.{FileMetadata}
use distributed_concurrent_f.HashTable.Laws.{IsTable, ht_modify-IsTable}
use distributed_concurrent_f.NameServer.{NameServer, Message, granted, removed, nm_save_files}
use distributed_concurrent_f.NameServer.Handlers.{
  Times, touch, grant, revoke, AccessRequest, add, remove, invalid, parse_access, change_access,
  serve_access, handle_view, handle_create_delete, handle_read_write_stream, handle_info,
  handle_access, handle_list,
}
use distributed_concurrent_f.NameServer.Create.{create-IsTable}
use distributed_concurrent_f.NameServer.Delete.{delete-IsTable}
use distributed_concurrent_f.NameServer.Commands.{Outside, handle_exec, dispatch, nm_command}
use distributed_concurrent_f.NameServer.Ownership.{exec_table}

-- A table that is as before, or with one file changed under its name.
kept-IsTable :
    (t u : HashTable) (f : Bytes) (change : FileMetadata → FileMetadata)
    → ((m : FileMetadata) → (change m).filename ≡ m.filename)
    → (u ≡ t) ⊎ (u ≡ ht_modify t f change)
    → IsTable t
    → IsTable u
kept-IsTable t u f change keeps (inl e) v = rw e v
kept-IsTable t u f change keeps (inr e) v = rw e (ht_modify-IsTable change keeps t f v)

pub read_kept :
    (nm : NameServer) (sock : ℕ) (username : Bytes) (args : List Bytes) (now : ℤ)
    → ((handle_read_write_stream nm sock username args now).file_table ≡ nm.file_table)
      ⊎ ((handle_read_write_stream nm sock username args now).file_table
          ≡ ht_modify nm.file_table (get_or args 1 []) (touch now))
unfolding handle_read_write_stream
read_kept nm sock username args now = ground arith

pub change_kept :
    (nm : NameServer) (sock : ℕ) (username f : Bytes) (change : FileMetadata → FileMetadata)
    (done : Message)
    → ((change_access nm sock username f change done).file_table ≡ nm.file_table)
      ⊎ ((change_access nm sock username f change done).file_table
          ≡ ht_modify nm.file_table f change)
unfolding change_access nm_save_files
change_kept nm sock username f change done = ground arith

serve-IsTable :
    (nm : NameServer) (sock : ℕ) (username : Bytes) (r : AccessRequest)
    → IsTable nm.file_table
    → IsTable (serve_access nm sock username r).file_table
serve-IsTable nm sock username (add f u perm) v =
    kept-IsTable _ _ f (grant u perm) (λ m. refl)
      (change_kept nm sock username f (grant u perm) granted) v
serve-IsTable nm sock username (remove f u) v =
    kept-IsTable _ _ f (revoke u) (λ m. refl) (change_kept nm sock username f (revoke u) removed) v
serve-IsTable nm sock username (invalid error) v = v

pub info_table :
    (nm : NameServer) (sock : ℕ) (username : Bytes) (args : List Bytes)
    → (handle_info nm sock username args).file_table ≡ nm.file_table
unfolding handle_info
info_table nm sock username args = ground arith

-- The table of a name server is well formed.
pub record Sound (nm : NameServer) : Type 0 where
  pub table : IsTable nm.file_table

if-Sound : {x y : NameServer} (b : Bool) → Sound x → Sound y → Sound (if b then x else y)
if-Sound true h k = h
if-Sound false h k = k

create_delete-IsTable :
    (nm : NameServer) (sock : ℕ) (username : Bytes) (args : List Bytes) (is_create : Bool)
    (times : Times)
    → IsTable nm.file_table
    → IsTable (handle_create_delete nm sock username args is_create times).file_table
unfolding handle_create_delete
create_delete-IsTable nm sock username args true times v =
    (if-Sound _ (record { table = v })
      (record { table = create-IsTable nm sock username (get_or args 1 []) times v })).table
create_delete-IsTable nm sock username args false times v =
    (if-Sound _ (record { table = v })
      (record { table = delete-IsTable nm sock username (get_or args 1 []) v })).table

dispatch-Sound :
    (nm : NameServer) (sock : ℕ) (username cmd : Bytes) (args : List Bytes) (outside : Outside)
    → IsTable nm.file_table
    → Sound (dispatch nm sock username cmd args outside)
unfolding dispatch
dispatch-Sound nm sock username cmd args outside v =
    let f = get_or args 1 [] in
    let create_delete =
      λ (b : Bool). create_delete-IsTable nm sock username args b outside.times v in
    let info : Sound (handle_info nm sock username args) = record {
      table = rw (info_table nm sock username args) v;
    } in
    let exec : Sound (handle_exec nm sock username args outside) = record {
      table = rw (exec_table nm sock username args outside) v;
    } in
    let view : Sound (handle_view nm sock username args) = record {
      table = unfold handle_view in v;
    } in
    let access : Sound (handle_access nm sock username args) = record {
      table = unfold handle_access in serve-IsTable nm sock username (parse_access args) v;
    } in
    let names : Sound (handle_list nm sock) = record { table = unfold handle_list in v } in
    let read : IsTable (handle_read_write_stream nm sock username args outside.now).file_table =
      kept-IsTable _ _ f (touch outside.now) (λ m. refl)
        (read_kept nm sock username args outside.now) v in
    if-Sound _ view (
      if-Sound _ (record { table = create_delete true })
        (if-Sound _ (record { table = create_delete false })
          (if-Sound _ (record { table = read })
            (if-Sound _ info
              (if-Sound _ access (if-Sound _ exec (if-Sound _ names (record { table = v }))))))))

-- Every command leaves a well-formed table well formed: each file stands once, in the chain of its
-- hash.
pub nm_command-IsTable :
    (nm : NameServer) (sock : ℕ) (username buffer : Bytes) (outside : Outside)
    → IsTable nm.file_table
    → IsTable (nm_command nm sock username buffer outside).file_table
unfolding nm_command
nm_command-IsTable nm sock username buffer outside v =
    elim (List-cases (split_string (trim_newline buffer) 32)) [
      | inl e ↦ rw (e, nm_command) v
      | inr (cmd, rest, e) ↦
          rw (e, nm_command) (dispatch-Sound nm sock username cmd (cmd ∷ rest) outside v).table
    ]
