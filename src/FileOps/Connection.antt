-- ===== src/FileOps/Connection.antt =====
-- What a storage server does with the messages of its connections: `ss_handle_client_connection` of
-- storage_server/file_ops.c for the one request of a client, and `ss_listen_to_nm` of
-- storage_server/storage_server.c for each command of the name server.
pub mod Laws
pub mod Write
use distributed_concurrent_f.Prelude.{
  ℕ, ◌+◌, Bool, true, false, List, [], ◌∷◌, ◌++◌, Option, none, some, Bytes, codes, ℤ, ltb, str_eq,
  take, length, get_or, if◌then◌else◌,
}
use distributed_concurrent_f.CString.{split_string, atoi}
use distributed_concurrent_f.StorageServer.{StorageServer}
use distributed_concurrent_f.UndoHandler.{FileSystem, store, unlink}
use distributed_concurrent_f.FileOps.{
  Reply, Session, Begun, InfoUpdate, Outcome, file_path, handle_ss_read, handle_ss_undo,
  write_begin,
}
use distributed_concurrent_f.FileOps.Stream.{handle_ss_stream}

-- What is sent to the client at once.
pub data Answer : Type 0 where
  invalid_command : Answer  -- 400 ERROR: Invalid command.
  write_usage : Answer  -- 400 ERROR: Usage: WRITE <file> <sent_num>
  unknown_command : Answer  -- 400 ERROR: Unknown command for SS.
  reply : Reply → Answer
  stream : Option (List Bytes) → Answer  -- the messages of STREAM; `none` is the error 404

-- `session` is the WRITE that goes on with the next messages of this client.
pub record Served : Type 0 where
  pub answer : Answer
  pub server : StorageServer
  pub files : FileSystem
  pub to_nm : List InfoUpdate
  pub session : Option Session

abbrev pub unchanged : StorageServer → FileSystem → Answer → Served
unchanged ss fs answer = record {
  answer = answer;
  server = ss;
  files = fs;
  to_nm = [];
  session = none;
}

abbrev pub from_begun : FileSystem → Begun → Served
from_begun fs b = record {
  answer = reply b.reply;
  server = b.server;
  files = fs;
  to_nm = [];
  session = b.session;
}

abbrev pub from_outcome : Outcome → Served
from_outcome out = record {
  answer = reply out.reply;
  server = out.server;
  files = out.files;
  to_nm = out.to_nm;
  session = none;
}

unfoldable pub serve_write : StorageServer → FileSystem → List Bytes → Served
serve_write ss fs parts =
    if ltb (length parts) 3
    then unchanged ss fs write_usage
    else from_begun fs (write_begin ss fs (get_or parts 1 []) (atoi (get_or parts 2 [])))

-- `buffer` is the request; a client that sends none is not answered.
unfoldable pub ss_handle_client_connection : StorageServer → FileSystem → Bytes → Served
unfolding serve_write
ss_handle_client_connection ss fs buffer =
    let parts = split_string buffer 32 in
    let cmd = get_or parts 0 [] in
    let filename = get_or parts 1 [] in
    if ltb (length parts) 2
    then unchanged ss fs invalid_command
    else if str_eq cmd (codes "READ")
    then unchanged ss fs (reply (handle_ss_read ss fs filename))
    else if str_eq cmd (codes "STREAM")
    then unchanged ss fs (stream (handle_ss_stream ss fs filename))
    else if str_eq cmd (codes "WRITE")
    then serve_write ss fs parts
    else if str_eq cmd (codes "UNDO")
    then from_outcome (handle_ss_undo ss fs filename)
    else if str_eq cmd (codes "GET_CONTENT")
    then unchanged ss fs (reply (handle_ss_read ss fs filename))
    else unchanged ss fs unknown_command

-- What is sent to the name server.
pub data Ack : Type 0 where
  ack_create_ok : Ack  -- ACK_CREATE OK
  ack_create_fail : Ack  -- ACK_CREATE FAIL
  ack_delete_ok : Ack  -- ACK_DELETE OK
  text_of : Reply → Ack

-- `snprintf(undo_path, sizeof(undo_path), "%s.undo", filepath)`
unfoldable pub deleted_undo_path : StorageServer → Bytes → Bytes
deleted_undo_path ss filename = take 1023 (file_path ss filename ++ codes ".undo")

-- One round of the loop.
unfoldable pub ss_nm_command : StorageServer → FileSystem → Bytes → Option Ack × FileSystem
unfolding deleted_undo_path
ss_nm_command ss fs buffer =
    let parts = split_string buffer 32 in
    let cmd = get_or parts 0 [] in
    let filename = get_or parts 1 [] in
    let filepath = file_path ss filename in
    if ltb (length parts) 2
    then (none, fs)
    else if str_eq cmd (codes "CREATE")
    then if fs.can_write filepath
      then (some ack_create_ok, store fs filepath [])
      else (some ack_create_fail, fs)
    else if str_eq cmd (codes "DELETE")
    then (some ack_delete_ok, unlink (unlink fs filepath) (deleted_undo_path ss filename))
    else if str_eq cmd (codes "GET_CONTENT")
    then (some (text_of (handle_ss_read ss fs filename)), fs)
    else (none, fs)

-- The loop over the commands of the name server.
unfoldable pub ss_listen_to_nm : StorageServer → FileSystem → List Bytes → List Ack × FileSystem
unfolding ss_nm_command
ss_listen_to_nm ss fs [] = ([], fs)
ss_listen_to_nm ss fs (buffer ∷ messages) =
    let (ack, fs') = ss_nm_command ss fs buffer in
    let (acks, out) = ss_listen_to_nm ss fs' messages in
    (elim ack [ none ↦ acks | some a ↦ a ∷ acks ], out)
