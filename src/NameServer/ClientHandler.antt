-- ===== src/NameServer/ClientHandler.antt =====
-- A connection to the name server from its first message to its end: `nm_handle_new_connection` of
-- name_server/name_server.c and `nm_handle_client_request` of name_server/client_handler.c. A message that does not come is
-- `none`; other connections are served between the messages, which the state of `Outside` does not show.
pub mod Laws
use distributed_concurrent_f.Prelude.{
  ℕ, ◌||◌, true, false, not, List, [], ◌∷◌, Option, none, some, Bytes, codes, ltb, str_eq,
  if◌then◌else◌, length, get_or, copy_name, ℤ,
}
use distributed_concurrent_f.CString.{split_string}
use distributed_concurrent_f.StorageServer.Scan.{starts_with}
use distributed_concurrent_f.NameServer.{
  NameServer, invalid_client, invalid_first, send_message, add_client, remove_client,
  nm_register_persistent_user,
}
use distributed_concurrent_f.NameServer.Commands.{Outside, nm_command}
use distributed_concurrent_f.NameServer.SsHandler.{serve_storage}

-- A message with what the world outside does at it.
pub record Request : Type 0 where
  pub buffer : Bytes
  pub outside : Outside

-- The command loop.
unfoldable pub serve_commands : NameServer → ℕ → Bytes → List Request → NameServer
serve_commands nm client_sock username [] = nm
serve_commands nm client_sock username (r ∷ requests) =
    serve_commands (nm_command nm client_sock username r.buffer r.outside) client_sock username
      requests

-- The client joins the list of active clients and the list of users.
unfoldable pub enter : NameServer → ℕ → Bytes → NameServer
enter nm client_sock username =
    nm_register_persistent_user (add_client nm client_sock username) username

-- `buffer` is the first message.
unfoldable pub nm_handle_client_request : NameServer → ℕ → Option Bytes → List Request → NameServer
unfolding serve_commands enter
nm_handle_client_request nm client_sock none requests = nm
nm_handle_client_request nm client_sock (some buffer) requests =
    let parts = split_string buffer 32 in
    let username = copy_name (get_or parts 1 []) in
    if ltb (length parts) 2 || not (str_eq (get_or parts 0 []) (codes "INIT_CLIENT"))
    then send_message nm client_sock invalid_client
    else remove_client
        (serve_commands (enter nm client_sock username) client_sock username requests) client_sock

-- The same messages as a storage server sends them.
abbrev pub reports_of : List Request → List (Bytes × ℤ)
reports_of [] = []
reports_of (r ∷ requests) = (r.buffer, r.outside.now) ∷ reports_of requests

-- The first message is looked at and left in place; `requests` are the messages behind it.
unfoldable pub nm_handle_new_connection :
    NameServer → ℕ → Bytes → Option Bytes → List Request → NameServer
unfolding nm_handle_client_request
nm_handle_new_connection nm sock ip none requests = nm
nm_handle_new_connection nm sock ip (some buffer) requests =
    if starts_with (codes "INIT_CLIENT") buffer
    then nm_handle_client_request nm sock (some buffer) requests
    else if starts_with (codes "INIT_SS") buffer
    then serve_storage nm sock ip buffer (reports_of requests)
    else send_message nm sock invalid_first
