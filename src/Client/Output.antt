-- ===== src/Client/Output.antt =====
-- READ and STREAM from end to end, over client/client_net.c and storage_server/file_ops.c: what the
-- user sees.
use mathlib.Core.List.{map}
use distributed_concurrent_f.Prelude.{
  ◌≤◌, true, List, [], ◌∷◌, ◌++◌, append_assoc, some, Bytes, codes, ℤ, pos, length, length-take,
  take_all, drop, str_eq, ◌≡◌, ◌∙◌, refl, sym, ap, arith,
}
use distributed_concurrent_f.CString.Fields.{IsField}
use distributed_concurrent_f.Decimal.{print_int}
use distributed_concurrent_f.StorageServer.{StorageServer}
use distributed_concurrent_f.UndoHandler.{FileSystem}
use distributed_concurrent_f.FileOps.{content, file_path, handle_ss_read}
use distributed_concurrent_f.FileOps.Stream.Laws.{joined, fits_words, stream-joined}
use distributed_concurrent_f.FileOps.Connection.{
  Answer, reply, stream, Served, ss_handle_client_connection,
}
use distributed_concurrent_f.FileOps.Connection.Laws.{
  IsWord, read-IsWord, stream-IsWord, two_words, connection-requests,
}
use distributed_concurrent_f.NameServer.Messages.{go_to_text}
use distributed_concurrent_f.Client.{
  Event, to_nm, connected, to_ss, printed, complained, World, linked, client_link, newline,
  buffered, fetch, client_handle_read, client_handle_stream,
}
use distributed_concurrent_f.Client.Commands.{
  client_parse_and_execute, execute_words, at_file, directed, at_storage, recv_message,
}
use distributed_concurrent_f.Client.Address.{link-go_to}

-- What is on the screen; errors go elsewhere.
abbrev pub shown_event : Event → Bytes
shown_event (to_nm text) = []
shown_event (connected ip port) = []
shown_event (to_ss text) = []
shown_event (printed text) = text
shown_event (complained text) = []

unfoldable pub shown : List Event → Bytes
shown [] = []
shown (e ∷ events) = shown_event e ++ shown events

shown-printed :
    (l : List Bytes) (events : List Event)
    → shown (map printed l ++ events) ≡ joined l ++ shown events
unfolding shown joined
shown-printed [] events = refl
shown-printed (w ∷ l) events =
    rw (shown-printed l events) (sym (append_assoc w (joined l) (shown events)))

-- The bytes of an answer: the text of a file, and `other` for all else.
abbrev pub answer_text : (Answer → Bytes) → Answer → Bytes
answer_text other (reply (content text)) = text
answer_text other (stream (some l)) = joined l
answer_text other a = other a

-- The storage server at an address runs on these files: it answers a request with the bytes of its
-- reply, however they are cut into messages on the way.
abbrev pub Serves : World → Bytes → ℤ → StorageServer → FileSystem → (Answer → Bytes) → Type 0
Serves world ip port ss fs other =
    (req : Bytes)
    → joined (world.answers ip port (req ∷ []))
      ≡ answer_text other (ss_handle_client_connection ss fs req).answer

-- The client sits between a name server that has sent the address and the server that is there.
pub record Directed (world : World) (ip : Bytes) (port : ℤ) : Type 0 where
  pub rest : List Bytes
  pub message : world.nm_messages ≡ go_to_text ip port ∷ rest
  pub address : IsField 58 ip
  pub fits : length (codes "202 OK " ++ ip ++ 58 ∷ print_int port) ≤ 4095
  pub reachable : world.reachable ip port ≡ true

shown-fetch :
    (world : World) (addr req : Bytes) (ip : Bytes) (port : ℤ)
    → client_link world addr ≡ linked ip port
    → shown (fetch world addr req) ≡ joined (world.answers ip port (req ∷ [])) ++ newline
unfolding fetch shown
shown-fetch world addr req ip port e =
    rw (e, fetch) (shown-printed (world.answers ip port (req ∷ [])) (printed newline ∷ []))

-- The message with an address is received whole.
recv_message-go_to :
    (ip : Bytes) (port : ℤ) → recv_message (go_to_text ip port) ≡ go_to_text ip port
unfolding recv_message go_to_text
recv_message-go_to ip port =
    take_all 4095 (go_to_text ip port)
      (omega (arith, length-take 4095 (codes "202 OK " ++ ip ++ 58 ∷ print_int port)))

module _ (world : World) (ip : Bytes) (port : ℤ) (d : Directed world ip port) where
  link : client_link world (drop 7 (go_to_text ip port)) ≡ linked ip port
  link = (link-go_to world ip port d.address d.fits).1 ∙ rw d.reachable refl

  -- A command on a file goes on to its handler, with that address.
  at_file-events :
      (input cmd f : Bytes)
      → (at_file world input (cmd ∷ f ∷ [])).events
        ≡ to_nm input ∷ (at_storage world (cmd ∷ f ∷ []) (drop 7 (go_to_text ip port))).0
  unfolding at_file directed
  at_file-events input cmd f =
      ground (
        arith,
        d.message,
        recv_message-go_to ip port,
        (link-go_to world ip port d.address d.fits).0,
      )

  read_events :
      (f : Bytes)
      → IsWord f
      → (client_parse_and_execute world (codes "READ " ++ f)).events
        ≡ to_nm (codes "READ " ++ f) ∷ client_handle_read world (drop 7 (go_to_text ip port)) f
  unfolding client_parse_and_execute execute_words at_storage str_eq
  read_events f h =
      ap (λ args. (execute_words world (codes "READ " ++ f) args).events)
        (two_words (codes "READ") f read-IsWord h)
      ∙ at_file-events (codes "READ " ++ f) (codes "READ") f

  stream_events :
      (f : Bytes)
      → IsWord f
      → (client_parse_and_execute world (codes "STREAM " ++ f)).events
        ≡ to_nm (codes "STREAM " ++ f) ∷ client_handle_stream world (drop 7 (go_to_text ip port)) f
  unfolding client_parse_and_execute execute_words at_storage str_eq
  stream_events f h =
      ap (λ args. (execute_words world (codes "STREAM " ++ f) args).events)
        (two_words (codes "STREAM") f stream-IsWord h)
      ∙ at_file-events (codes "STREAM " ++ f) (codes "STREAM") f

  -- The answer to the request that was sent, on the screen.
  shown-answer :
      (ss : StorageServer) (fs : FileSystem) (other : Answer → Bytes) (req text : Bytes)
      (a : Answer)
      → Serves world ip port ss fs other
      → length req ≤ 4095
      → (ss_handle_client_connection ss fs req).answer ≡ a
      → answer_text other a ≡ text
      → shown (fetch world (drop 7 (go_to_text ip port)) (buffered req)) ≡ text ++ newline
  shown-answer ss fs other req text a serves short e t =
      ap (λ r. shown (fetch world (drop 7 (go_to_text ip port)) r)) (take_all 4095 req short)
      ∙ shown-fetch world (drop 7 (go_to_text ip port)) req ip port link
      ∙ ap (λ w. w ++ newline) (serves req ∙ ap (answer_text other) e ∙ t)

  module _ (ss : StorageServer) (fs : FileSystem) (other : Answer → Bytes)
      (serves : Serves world ip port ss fs other) (f text : Bytes) (word : IsWord f)
      (there : fs.files (file_path ss f) ≡ some text) where
    -- READ shows the text of a file and a newline: the name server has sent the address, the
    -- storage server there can be reached and serves the file, and the request fits its buffer.
    pub shown-read :
        length (codes "READ " ++ f) ≤ 4095
        → shown (client_parse_and_execute world (codes "READ " ++ f)).events ≡ text ++ newline
    unfolding shown client_handle_read handle_ss_read
    shown-read short =
        let got : handle_ss_read ss fs f ≡ content text = ground (arith, there) in
        ap shown (read_events f word)
        ∙ shown-answer ss fs other (codes "READ " ++ f) text (reply (content text)) serves short
            (ap (λ (r : Served). r.answer) (connection-requests ss fs f (pos 0) word).0
              ∙ ap reply got)
            refl

    -- STREAM shows the text of a file and a newline: the name server has sent the address, the
    -- storage server there can be reached and serves the file, the text holds no byte 255 and no
    -- word of more than 255 bytes, and the request fits its buffer.
    pub shown-stream :
        length (codes "STREAM " ++ f) ≤ 4095
        → fits_words text 0 ≡ true
        → shown (client_parse_and_execute world (codes "STREAM " ++ f)).events ≡ text ++ newline
    unfolding shown client_handle_stream
    shown-stream short plain =
        let (l, got, all, pieces) = stream-joined ss fs f text there plain in
        ap shown (stream_events f word)
        ∙ shown-answer ss fs other (codes "STREAM " ++ f) text (stream (some l)) serves short
            (ap (λ (r : Served). r.answer) (connection-requests ss fs f (pos 0) word).1
              ∙ ap stream got)
            all
