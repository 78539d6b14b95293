-- ===== src/Tests/Answers.antt =====
-- The answers of the name server: their number, their texts, and what a client reads of them.
use distributed_concurrent_f.Prelude.{
  ◌<◌, length, ◌++◌, ℤ, pos, ◌<◌, true, false, str_eq, List, [], ◌∷◌, ◌≡◌, refl, arith, Bytes,
  codes, length, get_or,
}
use distributed_concurrent_f.CString.{tokens_from, split_string}
use distributed_concurrent_f.HashTable.{ht_get}
use distributed_concurrent_f.HashTable.Chain.{FileMetadata}
use distributed_concurrent_f.Trie.Listing.{occurrences}
use distributed_concurrent_f.HashTable.{ht_insert, hash_function, hash_loop, ht_get, ht_create}
use distributed_concurrent_f.HashTable.Chain.{chain_find}
use distributed_concurrent_f.NameServer.{NameServer, all_files, files_from, file_list, send_message}
use distributed_concurrent_f.NameServer.Handlers.{has_char, handle_view}
use distributed_concurrent_f.NameServer.Commands.{nm_command, handle_exec}
use distributed_concurrent_f.NameServer.Exec.Shown.{IsPlain}
use distributed_concurrent_f.NameServer.Texts.{
  Clock, view_lines, view_text, info_text, user_list_text, message_text,
}
use distributed_concurrent_f.NameServer.Texts.Bounds.{texts_fit}
use distributed_concurrent_f.NameServer.Texts.Readable.{
  names, shown_names, shows, handle_view-names,
}
use distributed_concurrent_f.NameServer.Answers.{Answers}
use distributed_concurrent_f.NameServer.Answers.Exec.{Streams, handle_exec-Streams}
use distributed_concurrent_f.NameServer.Answers.InStep.{hears, HasRead, unread, in_step}
use distributed_concurrent_f.NameServer.SsHandler.{serve_storage}
use distributed_concurrent_f.NameServer.Serial.{
  Happening, arrives, commands, leaves, registers, reports, fails, run,
}
use distributed_concurrent_f.NameServer.StorageSession.{Keeps, serve_storage-Keeps}
use distributed_concurrent_f.Client.{World}
use distributed_concurrent_f.Client.Commands.{exec_loop, client_parse_and_execute}
use distributed_concurrent_f.Tests.Tables.{report}
use distributed_concurrent_f.Tests.Names.{nm, table-IsTable}
use distributed_concurrent_f.NameServer.Catalog.{catalog}
use distributed_concurrent_f.NameServer.Refinement.Commands.{ShortWords, Tidy}
use distributed_concurrent_f.NameServer.Serial.Trail.{Trail, run-Trail}
use distributed_concurrent_f.CString.{split_string, tokens_from, trim_newline}
use distributed_concurrent_f.Tests.Commands.{outside, nm-Tidy}

abbrev clock : Clock
clock = record {
  minutes = λ t. codes "2026-01-01 12:00";
  seconds = λ t. codes "2026-01-01 12:00:00";
}

texts_fit_example :
    (length (view_text clock true (report ∷ [])) < 40960)
    × (length (info_text clock report) < 8192)
    × (length (user_list_text (codes "ann" ∷ [])) < 8192)
texts_fit_example =
    texts_fit clock true (report ∷ []) report (codes "ann" ∷ []) (λ t. omega arith) (omega arith)
      (omega arith) (omega arith) (omega arith) (omega arith) (omega arith)

seven : length (view_lines clock false (all_files nm.file_table)) ≡ 7
unfolding view_lines all_files files_from ht_insert hash_function hash_loop ht_get ht_create
    chain_find
seven = refl

room : length (view_lines clock false (all_files nm.file_table)) < 40960
room = omega (arith, seven)

handle_view-names_example :
    (files : List FileMetadata) × (handle_view nm 7 (codes "ann") (codes "VIEW" ∷ [])
      ≡ send_message nm 7 (file_list (has_char (get_or (codes "VIEW" ∷ []) 1 []) b'l') files))
    × (length (message_text clock (file_list false files)) < 40960)
    × (message_text clock (file_list false files) ≡ shown_names (names files))
    × ((q : Bytes)
        → occurrences (names files) q
          ≡ shows
              (has_char (get_or (codes "VIEW" ∷ []) 1 []) b'a')
              (codes "ann")
              (ht_get nm.file_table q))
handle_view-names_example =
    handle_view-names nm 7 (codes "ann") (codes "VIEW" ∷ []) clock table-IsTable room

handle_exec-Streams_example :
    (s : Streams 7 clock nm
      (handle_exec nm 7 (codes "ann") (codes "EXEC" ∷ codes "report" ∷ []) outside))
    × (unread : List Bytes) × ((exec_loop
          (s.outputs ++ message_text clock s.last ∷ codes "next" ∷ [])).1
        ≡ unread ++ codes "next" ∷ [])
handle_exec-Streams_example =
    handle_exec-Streams nm 7 (codes "ann") (codes "EXEC" ∷ codes "report" ∷ []) outside clock
      (codes "next" ∷ [])

abbrev world : World
world = record {
  nm_messages = [];
  typed = [];
  reachable = λ ip port. true;
  answers = λ ip port sent. [];
}

abbrev input : Bytes
input = codes "DELETE report"

input-IsPlain : IsPlain input
input-IsPlain = (
  refl,
  (
    refl,
    (refl, (refl, (refl, (refl, (refl, (refl, (refl, (refl, (refl, (refl, (refl, tt))))))))))),
  ),
)

input_words : split_string input 32 ≡ codes "DELETE" ∷ codes "report" ∷ []
unfolding split_string tokens_from
input_words = refl

in_step_example :
    (a : Answers 7 nm (nm_command nm 7 (codes "bob") input outside)) × HasRead
      (unread (message_text clock a.answer) ++ codes "next" ∷ [])
      (client_parse_and_execute
        (hears world (message_text clock a.answer ∷ codes "next" ∷ []))
        input)
unfolding str_eq
in_step_example =
    in_step nm 7 (codes "bob") input (codes "DELETE") (codes "report" ∷ []) outside clock world
      (codes "next" ∷ []) input-IsPlain input_words refl refl

abbrev hostile : List (Bytes × ℤ)
hostile = (codes "INFO_UPDATE report 9 9 9", pos 8) ∷ (codes "ACK_CREATE OK", pos 9) ∷ []

serve_storage-Keeps_example :
    Keeps nm (serve_storage nm 5 (codes "10.0.0.2") (codes "INIT_SS 9001 [report]") hostile)
serve_storage-Keeps_example =
    serve_storage-Keeps nm 5 (codes "10.0.0.2") (codes "INIT_SS 9001 [report]") hostile

-- A client that is not the owner, and a storage server that comes, reports and goes.
abbrev happenings : List Happening
happenings =
    arrives 9 (codes "bob")
    ∷ commands 9 (codes "bob") input outside
    ∷ registers 5 (codes "10.0.0.2") (codes "INIT_SS 9001 [report]")
    ∷ reports (codes "INFO_UPDATE report 9 9 9") (pos 8)
    ∷ fails 5
    ∷ leaves 9
    ∷ []

input-ShortWords : ShortWords (split_string (trim_newline input) 32)
unfolding split_string tokens_from trim_newline
input-ShortWords = (omega arith, (omega arith, tt))

run-Trail_example :
    Trail happenings (catalog nm.file_table) (catalog (run nm happenings).file_table)
    × Tidy (run nm happenings)
run-Trail_example =
    run-Trail nm happenings nm-Tidy
      (tt, ((omega arith, input-ShortWords), (tt, (tt, (tt, (tt, tt))))))

-- The same name server when the file is that of another user.
abbrev bobs : FileMetadata
bobs = record report { owner = codes "bob" }

abbrev later : NameServer
later = record nm { file_table = (ht_insert ht_create bobs).1 }
