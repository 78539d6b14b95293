-- ===== src/Client/Requests.antt =====
-- The requests of client/client_net.c at the storage server, storage_server/file_ops.c.
use mathlib.Core.Option
use distributed_concurrent_f.Prelude.{
  ◌≤◌, List, [], ◌∷◌, ◌++◌, Option, none, some, Bytes, codes, ℤ, length, take_all, ◌≡◌, ap, arith,
}
use distributed_concurrent_f.Decimal.{print_int}
use distributed_concurrent_f.StorageServer.{StorageServer}
use distributed_concurrent_f.UndoHandler.{FileSystem}
use distributed_concurrent_f.FileOps.{handle_ss_read, handle_ss_undo, write_begin}
use distributed_concurrent_f.FileOps.Stream.{handle_ss_stream}
use distributed_concurrent_f.FileOps.Connection.{
  reply, stream, Served, unchanged, from_begun, from_outcome, ss_handle_client_connection,
}
use distributed_concurrent_f.FileOps.Connection.Laws.{IsWord, connection-requests}
use distributed_concurrent_f.Client.{
  Event, to_nm, connected, to_ss, printed, complained, World, linked, client_link, fetch,
  client_handle_read, client_handle_stream, client_handle_undo, client_handle_write,
}

-- The first message that the client sends to the storage server.
unfoldable pub first_sent : List Event → Option Bytes
first_sent [] = none
first_sent (to_ss text ∷ events) = some text
first_sent (to_nm text ∷ events) = first_sent events
first_sent (connected ip port ∷ events) = first_sent events
first_sent (printed text ∷ events) = first_sent events
first_sent (complained text ∷ events) = first_sent events

-- What the storage server does for it.
abbrev pub served : StorageServer → FileSystem → List Event → Option Served
served ss fs events = Option.map (ss_handle_client_connection ss fs) (first_sent events)

-- What the four handlers of the client send, once they are connected, is served by the handler of their
-- command at the storage server, for that file, and WRITE at that sentence; the name of the file has no
-- blank, and the requests fit their buffer.
pub requests-served :
    (world : World) (addr ip : Bytes) (port : ℤ) (ss : StorageServer) (fs : FileSystem) (f : Bytes)
    (n : ℤ)
    → client_link world addr ≡ linked ip port
    → IsWord f
    → length (codes "STREAM " ++ f) ≤ 4095
    → length (codes "WRITE " ++ f ++ 32 ∷ print_int n) ≤ 4095
    → (served ss fs (client_handle_read world addr f)
        ≡ some (unchanged ss fs (reply (handle_ss_read ss fs f))))
      × (served ss fs (client_handle_stream world addr f)
          ≡ some (unchanged ss fs (stream (handle_ss_stream ss fs f))))
      × (served ss fs (client_handle_write world addr f n).0
          ≡ some (from_begun fs (write_begin ss fs f n)))
      × (served ss fs (client_handle_undo world addr f)
          ≡ some (from_outcome (handle_ss_undo ss fs f)))
unfolding client_handle_read client_handle_stream client_handle_write client_handle_undo fetch
    first_sent
requests-served world addr ip port ss fs f n link word short room =
    let (reads, streams, writes, undoes) = connection-requests ss fs f n word in
    (
      rw (link, fetch, take_all 4095 (codes "READ " ++ f) (omega (arith, short))) (ap some reads),
      rw (link, fetch, take_all 4095 (codes "STREAM " ++ f) short) (ap some streams),
      rw (link, take_all 4095 (codes "WRITE " ++ f ++ 32 ∷ print_int n) room) (ap some writes),
      rw (client_handle_undo, link, take_all 4095 (codes "UNDO " ++ f) (omega (arith, short)))
          (ap some undoes),
    )
