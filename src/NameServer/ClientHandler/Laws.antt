-- ===== src/NameServer/ClientHandler/Laws.antt =====
-- What a connection does to the files of the name server, from its first message to its end
-- (name_server/name_server.c, name_server/client_handler.c).
use mathlib.Core.Path.{subst}
use distributed_concurrent_f.Prelude.{
  ℕ, ◌≤◌, List, [], ◌∷◌, ◌≡◌, refl, arith, some, Bytes, length, max_name, copy_name, All, Bool,
  true, false, Option, none, get_or, if◌then◌else◌, copy_name_fits,
}
use distributed_concurrent_f.CString.{split_string, trim_newline}
use distributed_concurrent_f.NameServer.{
  NameServer, Message, invalid_client, invalid_first, send_message, add_client, remove_client,
  nm_register_persistent_user, nm_save_users,
}
use distributed_concurrent_f.NameServer.Catalog.{Catalog, catalog, Change}
use distributed_concurrent_f.NameServer.Commands.{nm_command}
use distributed_concurrent_f.NameServer.Refinement.Commands.{ShortWords, Tidy, nm_command-refines}
use distributed_concurrent_f.NameServer.Refinement.Lists.{same_lists}
use distributed_concurrent_f.NameServer.ClientHandler.{
  Request, serve_commands, enter, reports_of, nm_handle_client_request, nm_handle_new_connection,
}
use distributed_concurrent_f.NameServer.StorageTable.{storage-Change}

-- A sequence of changes by one user.
pub data Changes (user : Bytes) : Catalog → Catalog → Type 0 where
  done : {c : Catalog} → Changes user c c
  then_by : {c d e : Catalog} → Change user c d → Changes user d e → Changes user c e

-- No word of a message is longer than a name can be.
abbrev pub ShortRequest : Request → Type 0
ShortRequest r = ShortWords (split_string (trim_newline r.buffer) 32)

serve_commands-Changes :
    (nm : NameServer) (sock : ℕ) (user : Bytes) (requests : List Request)
    → Tidy nm
    → length user ≤ max_name
    → All ShortRequest requests
    → Changes user
        (catalog nm.file_table)
        (catalog (serve_commands nm sock user requests).file_table)
      × Tidy (serve_commands nm sock user requests)
unfolding serve_commands
serve_commands-Changes nm sock user [] tidy hu short = (done, tidy)
serve_commands-Changes nm sock user (r ∷ requests) tidy hu short =
    let (change, after) = nm_command-refines nm sock user r.buffer r.outside tidy hu short.0 in
    let (more, last) =
      serve_commands-Changes (nm_command nm sock user r.buffer r.outside) sock user requests after
        hu short.1 in
    (then_by change more, last)

pub enter_table :
    (nm : NameServer) (sock : ℕ) (user : Bytes) → (enter nm sock user).file_table ≡ nm.file_table
unfolding enter add_client nm_register_persistent_user nm_save_users
enter_table nm sock user = ground arith

remove_table : (nm : NameServer) (sock : ℕ) → (remove_client nm sock).file_table ≡ nm.file_table
unfolding remove_client
remove_table nm sock = refl

-- The name that the first message of a client holds, cut to fit.
abbrev pub user_of : Option Bytes → Bytes
user_of none = []
user_of (some buffer) = copy_name (get_or (split_string buffer 32) 1 [])

session-Changes :
    (nm : NameServer) (sock : ℕ) (user : Bytes) (requests : List Request)
    → length user ≤ max_name
    → Tidy nm
    → All ShortRequest requests
    → let after = remove_client (serve_commands (enter nm sock user) sock user requests) sock in
      Changes user (catalog nm.file_table) (catalog after.file_table) × Tidy after
unfolding remove_client
session-Changes nm sock user requests hu tidy short =
    let entered : Tidy (enter nm sock user) = record {
      table = rw (enter_table nm sock user) tidy.table;
      lists = same_lists nm.file_table _ (enter_table nm sock user) tidy.lists;
    } in
    let (changes, last) =
      serve_commands-Changes (enter nm sock user) sock user requests entered hu short in
    (
      subst
          (λ t.
            Changes user (catalog t)
              (catalog (serve_commands (enter nm sock user) sock user requests).file_table))
          (enter_table nm sock user) changes,
      record { table = last.table; lists = last.lists },
    )

-- What holds of a name server after a connection of `user`.
abbrev pub Respects : NameServer → Bytes → NameServer → Type 0
Respects nm user after =
    Changes user (catalog nm.file_table) (catalog after.file_table) × Tidy after

if-Respects :
    (nm x y : NameServer) (user : Bytes) (b : Bool)
    → Respects nm user x
    → Respects nm user y
    → Respects nm user (if b then x else y)
if-Respects nm x y user true h k = h
if-Respects nm x y user false h k = k

sent-Respects :
    (nm : NameServer) (sock : ℕ) (user : Bytes) (message : Message)
    → Tidy nm
    → Respects nm user (send_message nm sock message)
sent-Respects nm sock user message tidy = (done, record { table = tidy.table; lists = tidy.lists })

client-Respects :
    (nm : NameServer) (sock : ℕ) (buffer : Bytes) (requests : List Request)
    → Tidy nm
    → All ShortRequest requests
    → Respects nm (user_of (some buffer)) (nm_handle_client_request nm sock (some buffer) requests)
unfolding nm_handle_client_request
client-Respects nm sock buffer requests tidy short =
    let user = user_of (some buffer) in
    if-Respects nm _ _ user _ (sent-Respects nm sock user invalid_client tidy) (
      session-Changes nm sock user requests (copy_name_fits (get_or (split_string buffer 32) 1 []))
        tidy short)

-- Whatever connects, a client, a storage server or anything else, and whatever it sends: the catalog
-- changes by a sequence of changes of one user alone, the one whose name is the second word of the
-- first message, cut to 255 bytes; if the table is in good order and no word of a later message is
-- longer than 255 bytes. The table stays in good order.
pub connection-Changes :
    (nm : NameServer) (sock : ℕ) (ip : Bytes) (first : Option Bytes) (requests : List Request)
    → Tidy nm
    → All ShortRequest requests
    → Respects nm (user_of first) (nm_handle_new_connection nm sock ip first requests)
unfolding nm_handle_new_connection
connection-Changes nm sock ip none requests tidy short = (done, tidy)
connection-Changes nm sock ip (some buffer) requests tidy short =
    let user = user_of (some buffer) in
    let (change, after) = storage-Change nm user sock ip buffer (reports_of requests) tidy in
    if-Respects nm _ _ user _ (client-Respects nm sock buffer requests tidy short) (
      if-Respects nm _ _ user _ (then_by change done, after)
        (sent-Respects nm sock user invalid_first tidy))
