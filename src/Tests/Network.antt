-- ===== src/Tests/Network.antt =====
-- The parts of the system behind one another: a storage server with one file, a name server that knows
-- it, and a client.
use distributed_concurrent_f.Prelude.{
  ℤ, append-nil, ◌≤◌, true, List, [], ◌∷◌, ◌++◌, ◌≡◌, refl, arith, Bytes, codes, length, pos, some,
  str_eq, All,
}
use distributed_concurrent_f.StorageServer.{StorageServer}
use distributed_concurrent_f.UndoHandler.{FileSystem}
use distributed_concurrent_f.CString.{is_space}
use distributed_concurrent_f.Decimal.{print_int, print_nat, digits}
use distributed_concurrent_f.FileParser.{is_delimiter}
use distributed_concurrent_f.UndoHandler.{FileSystem}
use distributed_concurrent_f.StorageServer.Scan.{
  init_text, init_message, is_skipped, contains, starts_with, ss_scan_directory, scan_loop,
}
use distributed_concurrent_f.FileOps.{
  not_found, no_undo, handle_ss_read, handle_ss_undo, write_begin,
}
use distributed_concurrent_f.FileOps.Stream.{is_break, handle_ss_stream}
use distributed_concurrent_f.FileOps.Stream.Laws.{joined, fits_words}
use distributed_concurrent_f.FileOps.Connection.{
  Answer, reply, stream, unchanged, from_begun, from_outcome, ss_handle_client_connection,
  ss_nm_command,
}
use distributed_concurrent_f.FileOps.Connection.Laws.{IsWord, delete-read_undo}
use distributed_concurrent_f.Client.Requests.{served, requests-served}
use distributed_concurrent_f.Client.{
  linked, client_link, client_handle_read, client_handle_stream, client_handle_undo,
  client_handle_write,
}
use distributed_concurrent_f.CString.{
  split_string, tokens_from, atoi, digits_value, skip_spaces, is_space,
}
use distributed_concurrent_f.NameServer.SsHandler.{register_ss, nm_handle_ss_init}
use distributed_concurrent_f.NameServer.Listing.{IsFileName, scanned, init-registers}
use distributed_concurrent_f.NameServer.Messages.{go_to_text}
use distributed_concurrent_f.Client.{World, Event, newline}
use distributed_concurrent_f.Client.Commands.{client_parse_and_execute}
use distributed_concurrent_f.Client.Main.{client_main, main-ends}
use distributed_concurrent_f.Client.Output.{answer_text, shown, Directed, Serves, shown-stream}
use distributed_concurrent_f.Tests.Names.{nm}
use distributed_concurrent_f.Tests.Server.{server, files, name, old_text, name-Fits, file_there}

pub name-IsWord : IsWord name
name-IsWord = (λ (e : name ≡ []). cc, (refl, (refl, (refl, (refl, (refl, tt))))))

abbrev left : FileSystem
left = (ss_nm_command server files (codes "DELETE " ++ name)).1

delete-read_undo_example :
    ((ss_handle_client_connection server left (codes "READ " ++ name)).answer ≡ reply not_found)
    × ((ss_handle_client_connection server left (codes "UNDO " ++ name)).answer ≡ reply no_undo)
delete-read_undo_example = delete-read_undo server files name name-IsWord name-Fits refl refl

-- A directory with the two entries that every directory has, a backup, and a file.
abbrev directory : List Bytes
directory = codes "." ∷ codes ".." ∷ codes "report.undo" ∷ codes "report" ∷ []

only_report : scanned directory ≡ codes "report" ∷ []
unfolding scanned is_skipped contains starts_with str_eq
only_report = refl

names-IsFileName : All IsFileName (scanned directory)
names-IsFileName =
    rw only_report
      ((λ (e : codes "report" ≡ []). cc, (refl, (refl, (refl, (refl, (refl, (refl, tt))))))), tt)

message_fits : length (init_text (pos 9001) (some directory)) ≤ 4095
unfolding init_text ss_scan_directory scan_loop is_skipped contains starts_with str_eq print_int
    print_nat digits
message_fits = omega arith

init-registers_example :
    nm_handle_ss_init nm 5 (codes "10.0.0.2") (init_message (pos 9001) (some directory))
    ≡ register_ss nm 5 (codes "10.0.0.2") (pos 9001) (scanned directory)
init-registers_example =
    init-registers nm 5 (codes "10.0.0.2") (pos 9001) directory names-IsFileName message_fits

-- The text of any other answer is of no account here.
abbrev pub other : Answer → Bytes
other a = []

abbrev answers : StorageServer → FileSystem → Bytes → ℤ → List Bytes → List Bytes
answers ss fs ip port [] = []
answers ss fs ip port (req ∷ sent) =
    answer_text other (ss_handle_client_connection ss fs req).answer ∷ []

-- The network around a storage server.
abbrev pub around : StorageServer → FileSystem → World
around ss fs = record {
  nm_messages = go_to_text (codes "10.0.0.1") (pos 9000) ∷ [];
  typed = [];
  reachable = λ ip port. true;
  answers = answers ss fs;
}

abbrev world : World
world = around server files

pub around-Directed :
    (ss : StorageServer) (fs : FileSystem) → Directed (around ss fs) (codes "10.0.0.1") (pos 9000)
unfolding print_int print_nat digits
around-Directed ss fs = record {
  rest = [];
  message = refl;
  address = (
    λ (e : codes "10.0.0.1" ≡ []). cc,
    (refl, (refl, (refl, (refl, (refl, (refl, (refl, (refl, tt)))))))),
  );
  fits = omega arith;
  reachable = refl;
}

short_words : fits_words old_text 0 ≡ true
unfolding fits_words is_break is_space is_delimiter
short_words = refl

pub around-Serves :
    (ss : StorageServer) (fs : FileSystem)
    → Serves (around ss fs) (codes "10.0.0.1") (pos 9000) ss fs other
unfolding joined
around-Serves ss fs req = append-nil _

shown-stream_example :
    shown (client_parse_and_execute world (codes "STREAM " ++ name)).events ≡ old_text ++ newline
shown-stream_example =
    shown-stream world (codes "10.0.0.1") (pos 9000) (around-Directed server files) server files
      other (around-Serves server files) name old_text name-IsWord file_there (omega arith)
      short_words

abbrev pub lines : List Bytes
lines = codes "1 and\n" ∷ codes "\n" ∷ codes "ETIRW\n" ∷ codes "exit\n" ∷ []

main-ends_example :
    (events : List Event) × (client_main
        (λ ip. true)
        9
        (codes "127.0.0.1" ∷ [])
        world
        (codes "ann\n" ∷ lines)
      ≡ some events)
    × (client_main (λ ip. true) 7 (codes "127.0.0.1" ∷ []) world (codes "ann\n" ∷ lines)
        ≡ some events)
main-ends_example =
    main-ends (λ ip. true) (codes "127.0.0.1" ∷ []) (codes "ann\n" ∷ lines) world 9 7 (omega arith)
      (omega arith)

around_link : client_link world (codes "10.0.0.1:9000") ≡ linked (codes "10.0.0.1") (pos 9000)
unfolding client_link split_string tokens_from atoi digits_value skip_spaces is_space
around_link = refl

write_fits : length (codes "WRITE " ++ name ++ 32 ∷ print_int (pos 1)) ≤ 4095
unfolding print_int print_nat digits
write_fits = omega arith

requests-served_example :
    (served server files (client_handle_read world (codes "10.0.0.1:9000") name)
      ≡ some (unchanged server files (reply (handle_ss_read server files name))))
    × (served server files (client_handle_stream world (codes "10.0.0.1:9000") name)
        ≡ some (unchanged server files (stream (handle_ss_stream server files name))))
    × (served server files (client_handle_write world (codes "10.0.0.1:9000") name (pos 1)).0
        ≡ some (from_begun files (write_begin server files name (pos 1))))
    × (served server files (client_handle_undo world (codes "10.0.0.1:9000") name)
        ≡ some (from_outcome (handle_ss_undo server files name)))
requests-served_example =
    requests-served world (codes "10.0.0.1:9000") (codes "10.0.0.1") (pos 9000) server files name
      (pos 1) around_link name-IsWord (omega arith) write_fits
