-- ===== src/NameServer/Refinement/Commands.antt =====
-- Whole commands of name_server/client_handler.c against the catalog, from the text of a message on.
use distributed_concurrent_f.Prelude.{
  ℕ, zero, suc, codes, ◌==◌, ◌≤◌, Bool, true, false, ◌&&◌, List, [], ◌∷◌, ◌≡◌, refl, arith, Bytes,
  List-cases, inl, inr, ℤ, All, length, max_name, str_eq, get_or, if◌then◌else◌,
}
use distributed_concurrent_f.CString.{split_string, trim_newline}
use distributed_concurrent_f.HashTable.Laws.{IsTable}
use distributed_concurrent_f.NameServer.{NameServer, bad_flag, Message}
use distributed_concurrent_f.NameServer.Handlers.{
  Times, touch, AccessRequest, add, remove, invalid, parse_access, handle_view,
  handle_create_delete, handle_read_write_stream, handle_access, handle_list,
}
use distributed_concurrent_f.NameServer.Invariant.{read_kept, info_table}
use distributed_concurrent_f.NameServer.Ownership.{exec_table}
use distributed_concurrent_f.NameServer.Commands.{Outside, dispatch, nm_command}
use distributed_concurrent_f.NameServer.Catalog.{catalog, Change}
use distributed_concurrent_f.NameServer.Refinement.{
  UniqueLists, same_table, touched, create_Change, delete_Change,
}
use distributed_concurrent_f.NameServer.Refinement.Access.{ShortUser, serve_Change}
use distributed_concurrent_f.NameServer.Refinement.Lists.{
  same_lists, kept_lists, create_lists, delete_lists, serve_lists,
}
use distributed_concurrent_f.NameServer.Invariant.{nm_command-IsTable}

-- No word of a command is longer than a name can be.
abbrev pub ShortWords : List Bytes → Type 0
ShortWords words = All (λ w. length w ≤ max_name) words

short_word : (words : List Bytes) (i : ℕ) → ShortWords words → length (get_or words i []) ≤ max_name
short_word [] i h = omega arith
short_word (w ∷ words) zero h = h.0
short_word (w ∷ words) (suc i) h = short_word words i h.1

record Short (r : AccessRequest) : Type 0 where
  user : ShortUser r

if-Short : {x y : AccessRequest} (b : Bool) → Short x → Short y → Short (if b then x else y)
if-Short true h k = h
if-Short false h k = k

parse_access-Short : (args : List Bytes) → ShortWords args → Short (parse_access args)
unfolding parse_access
parse_access-Short args h =
    let no : (m : Message) → Short (invalid m) = λ m. record { user = tt } in
    let taken : (f u : Bytes) → Short (remove f u) = λ f u. record { user = tt } in
    let given : (perm : ℕ) → Short (add (get_or args 2 []) (get_or args 3 []) perm) =
      λ perm. record { user = short_word args 3 h } in
    if-Short (str_eq (get_or args 0 []) (codes "ADDACCESS") && length args == 4)
      (if-Short (str_eq (get_or args 1 []) (codes "-W")) (given b'W')
        (if-Short (str_eq (get_or args 1 []) (codes "-R")) (given b'R') (no bad_flag)))
      (if-Short (str_eq (get_or args 0 []) (codes "REMACCESS") && length args == 3)
        (taken (get_or args 1 []) (get_or args 2 [])) (no _))

-- The server `x` comes from `nm` by what the catalog allows to the user, and keeps the lists unique.
record Obeys (nm : NameServer) (user : Bytes) (x : NameServer) : Type 0 where
  change : Change user (catalog nm.file_table) (catalog x.file_table)
  lists : UniqueLists x.file_table

if-Obeys :
    {nm x y : NameServer} {user : Bytes} (b : Bool)
    → Obeys nm user x
    → Obeys nm user y
    → Obeys nm user (if b then x else y)
if-Obeys true h k = h
if-Obeys false h k = k

-- A command that leaves the table alone.
still :
    (nm x : NameServer) (user : Bytes)
    → x.file_table ≡ nm.file_table
    → UniqueLists nm.file_table
    → Obeys nm user x
still nm x user e lists = record {
  change = same_table user nm.file_table x.file_table e;
  lists = same_lists nm.file_table x.file_table e lists;
}

module _ (nm : NameServer) (sock : ℕ) (user : Bytes) (args : List Bytes)
    (table : IsTable nm.file_table) (lists : UniqueLists nm.file_table)
    (short_user : length user ≤ max_name) (short : ShortWords args) where
  create_delete-Obeys :
      (b : Bool) (times : Times) → Obeys nm user (handle_create_delete nm sock user args b times)
  unfolding handle_create_delete
  create_delete-Obeys b times = if-Obeys _ (still nm _ user refl lists) (
      if-Obeys b
        (record {
          change =
              create_Change nm sock user (get_or args 1 []) times short_user
                (short_word args 1 short);
          lists = create_lists nm sock user (get_or args 1 []) times lists;
        })
        (record {
          change = delete_Change nm sock user (get_or args 1 []) table;
          lists = delete_lists nm sock user (get_or args 1 []) table lists;
        }))

  read-Obeys : (now : ℤ) → Obeys nm user (handle_read_write_stream nm sock user args now)
  read-Obeys now = record {
    change = touched user (get_or args 1 []) now nm.file_table _ (read_kept nm sock user args now);
    lists =
        kept_lists nm.file_table _ (get_or args 1 []) (touch now) (λ m. refl) (λ m k. k)
          (read_kept nm sock user args now) lists;
  }

  access-Obeys : Obeys nm user (handle_access nm sock user args)
  unfolding handle_access
  access-Obeys = record {
    change =
        serve_Change nm sock user (parse_access args) (parse_access-Short args short).user lists;
    lists = serve_lists nm sock user (parse_access args) (parse_access-Short args short).user lists;
  }

  view-Obeys : Obeys nm user (handle_view nm sock user args)
  unfolding handle_view
  view-Obeys = still nm _ user refl lists

  list-Obeys : Obeys nm user (handle_list nm sock)
  unfolding handle_list
  list-Obeys = still nm _ user refl lists

  dispatch-Obeys :
      (cmd : Bytes) (outside : Outside) → Obeys nm user (dispatch nm sock user cmd args outside)
  unfolding dispatch
  dispatch-Obeys cmd outside = if-Obeys _ view-Obeys (
      if-Obeys _ (create_delete-Obeys true outside.times) (
        if-Obeys _ (create_delete-Obeys false outside.times) (
          if-Obeys _ (read-Obeys outside.now) (
            if-Obeys _ (still nm _ user (info_table nm sock user args) lists) (
              if-Obeys _ access-Obeys (
                if-Obeys _ (still nm _ user (exec_table nm sock user args outside) lists)
                  (if-Obeys _ list-Obeys (still nm _ user refl lists))))))))

-- The invariant of the file table.
pub record Tidy (nm : NameServer) : Type 0 where
  pub table : IsTable nm.file_table
  pub lists : UniqueLists nm.file_table

-- Whatever a user whose name is not cut sends, with no word of more than 255 bytes, to a name
-- server whose table is in good order, it does one of the things that the catalog allows: nothing;
-- a new file of that user under a free name; or, to a file of that user, the removal of it, or the
-- rights of one other user given or taken. The table stays in good order: each file is in its
-- chain once, and no list names a user twice.
pub nm_command-refines :
    (nm : NameServer) (sock : ℕ) (user buffer : Bytes) (outside : Outside)
    → Tidy nm
    → length user ≤ max_name
    → ShortWords (split_string (trim_newline buffer) 32)
    → Change user
        (catalog nm.file_table)
        (catalog (nm_command nm sock user buffer outside).file_table)
      × Tidy (nm_command nm sock user buffer outside)
unfolding nm_command
nm_command-refines nm sock user buffer outside tidy hu short =
    let o = obeys in
    (
      o.change,
      record { table = nm_command-IsTable nm sock user buffer outside tidy.table; lists = o.lists },
    )
  where
    obeys : Obeys nm user (nm_command nm sock user buffer outside)
    obeys = elim (List-cases (split_string (trim_newline buffer) 32)) [
      | inl e ↦ rw (nm_command, e) (still nm nm user refl tidy.lists)
      | inr (cmd, rest, e) ↦
          rw (nm_command, e)
            (dispatch-Obeys nm sock user (cmd ∷ rest) tidy.table tidy.lists hu (rw e at short) cmd
              outside)
    ]
