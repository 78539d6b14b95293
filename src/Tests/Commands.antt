-- ===== src/Tests/Commands.antt =====
-- Whole messages to the name server, and the count of words.
use distributed_concurrent_f.Prelude.{arith, true, [], ◌∷◌, ◌≡◌, refl, Bytes, codes, pos, some}
use distributed_concurrent_f.CString.{split_string, tokens_from}
use distributed_concurrent_f.Common.{get_word_count}
use distributed_concurrent_f.Common.Count.{prose_count, get_word_count-eq}
use distributed_concurrent_f.FileParser.{split_into_words}
use distributed_concurrent_f.HashTable.{ht_create}
use distributed_concurrent_f.NameServer.Exec.{Shell}
use distributed_concurrent_f.NameServer.Commands.{Outside, nm_command}
use distributed_concurrent_f.AccessList.Laws.{Unique, is_unique}
use distributed_concurrent_f.NameServer.Refinement.Lists.{ht_create-UniqueLists, inserted_lists}
use distributed_concurrent_f.CString.{trim_newline}
use distributed_concurrent_f.Client.{init_client}
use distributed_concurrent_f.NameServer.{NameServer, all_files}
use distributed_concurrent_f.Persistence.{files_text, users_text}
use distributed_concurrent_f.NameServer.Persisted.{Persisted}
use distributed_concurrent_f.NameServer.Persisted.Commands.{nm_command-Persisted}
use distributed_concurrent_f.NameServer.Catalog.{Change, catalog}
use distributed_concurrent_f.NameServer.Refinement.Commands.{ShortWords, Tidy, nm_command-refines}
use distributed_concurrent_f.NameServer.ClientHandler.{nm_handle_new_connection}
use distributed_concurrent_f.NameServer.ClientHandler.Laws.{connection-Changes, user_of, Respects}
use distributed_concurrent_f.Tests.Tables.{report}
use distributed_concurrent_f.Tests.Names.{nm, times, table-IsTable}

get_word_count-eq_example :
    get_word_count (codes "a b.") ≡ prose_count (split_into_words (codes "a b."))
get_word_count-eq_example = get_word_count-eq (codes "a b.") (refl, (refl, (refl, (refl, tt))))

-- A shell that prints the script that it is to run.
abbrev pub quick_shell : Shell
quick_shell = record {
  reachable = λ ip port. true;
  answer = λ ip port request. codes "ls";
  can_create = true;
  run = λ script. some script;
}

abbrev pub outside : Outside
outside = record { shell = quick_shell; times = times; now = pos 9 }

no_entry : Unique report.access_list
unfolding is_unique
no_entry = refl

pub nm-Tidy : Tidy nm
nm-Tidy = record {
  table = table-IsTable;
  lists = inserted_lists ht_create report no_entry ht_create-UniqueLists;
}

abbrev command : Bytes
command = codes "CREATE notes"

command-ShortWords : ShortWords (split_string (trim_newline command) 32)
unfolding split_string tokens_from trim_newline
command-ShortWords = (omega arith, (omega arith, tt))

nm_command-refines_example :
    Change
      (codes "ann")
      (catalog nm.file_table)
      (catalog (nm_command nm 7 (codes "ann") command outside).file_table)
    × Tidy (nm_command nm 7 (codes "ann") command outside)
nm_command-refines_example =
    nm_command-refines nm 7 (codes "ann") command outside nm-Tidy (omega arith) command-ShortWords

abbrev after_session : NameServer
after_session =
    nm_handle_new_connection nm 7 (codes "10.0.0.9") (some (init_client (codes "ann")))
      (record { buffer = command; outside = outside } ∷ [])

connection-Changes_example : Respects nm (user_of (some (init_client (codes "ann")))) after_session
connection-Changes_example =
    connection-Changes nm 7 (codes "10.0.0.9") (some (init_client (codes "ann")))
      (record { buffer = command; outside = outside } ∷ []) nm-Tidy (command-ShortWords, tt)

-- The server behind a save.
abbrev saved : NameServer
saved = record nm {
  saved_files = some (files_text (all_files nm.file_table));
  saved_users = some (users_text nm.all_users_list);
}

saved-Persisted : Persisted saved
saved-Persisted = record { can_save = refl; files = refl; users = refl }

nm_command-Persisted_example : Persisted (nm_command saved 7 (codes "ann") command outside)
nm_command-Persisted_example =
    nm_command-Persisted saved 7 (codes "ann") command outside saved-Persisted
