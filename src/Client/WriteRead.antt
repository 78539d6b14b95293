-- ===== src/Client/WriteRead.antt =====
-- What one client writes another reads, over client/client_net.c and storage_server/file_ops.c.
use mathlib.Core.List.{map}
use distributed_concurrent_f.Prelude.{
  ◌≤◌, true, List, ◌++◌, some, Bytes, codes, ℤ, length, max_name, ◌≡◌, ◌∙◌, ap,
}
use distributed_concurrent_f.CString.{trim_newline}
use distributed_concurrent_f.StorageServer.{StorageServer}
use distributed_concurrent_f.StorageServer.Locks.{unique_locks}
use distributed_concurrent_f.StorageServer.Log.{IsLog}
use distributed_concurrent_f.UndoHandler.{FileSystem}
use distributed_concurrent_f.FileOps.{file_path, apply_updates, or_empty}
use distributed_concurrent_f.FileOps.Write.{Fits, starts}
use distributed_concurrent_f.FileOps.Connection.{Answer}
use distributed_concurrent_f.FileOps.Connection.Laws.{IsWord}
use distributed_concurrent_f.FileOps.Connection.Write.{handle_ss_write, write-typed}
use distributed_concurrent_f.Client.{World, newline, write_loop}
use distributed_concurrent_f.Client.Session.{updates_of, lines_typed}
use distributed_concurrent_f.Client.Commands.{client_parse_and_execute}
use distributed_concurrent_f.Client.Output.{Serves, Directed, shown, shown-read}

-- What a client types in a WRITE that may start, undisturbed and on a log and locks in good order, is
-- what the next READ shows, of any client that the name server sends to that storage server: the text
-- that the typed updates make, and a newline. Each update can be applied, the file can be written, its
-- name has no blank, and names, paths and the request are not cut.
pub write-read :
    (ss : StorageServer) (fs : FileSystem) (f : Bytes) (n : ℤ) (typed : List Bytes) (text : Bytes)
    (world : World) (ip : Bytes) (port : ℤ) (other : Answer → Bytes)
    → Fits ss f
    → length f ≤ max_name
    → IsLog ss
    → unique_locks ss.sentence_locks ≡ true
    → starts ss fs f n ≡ true
    → fs.can_write (file_path ss f) ≡ true
    → apply_updates
        (or_empty (fs.files (file_path ss f)))
        n
        (updates_of (lines_typed (map trim_newline typed)))
      ≡ some text
    → IsWord f
    → length (codes "READ " ++ f) ≤ 4095
    → Directed world ip port
    → Serves world ip port
        (handle_ss_write ss fs f n (write_loop typed).sent).server
        (handle_ss_write ss fs f n (write_loop typed).sent).files
        other
    → shown (client_parse_and_execute world (codes "READ " ++ f)).events ≡ text ++ newline
write-read ss fs f n typed text world ip port other fits short log unique go can e word room d
      serves =
    let w = handle_ss_write ss fs f n (write_loop typed).sent in
    let h = write-typed ss fs f n typed text fits short log unique go can e in
    shown-read world ip port d w.server w.files other serves f text word
      (ap w.files.files h.4 ∙ h.1) room
