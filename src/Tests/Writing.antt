-- ===== src/Tests/Writing.antt =====
-- A WRITE session from the lines that are typed to the text of the file.
use mathlib.Core.List.{map}
use mathlib.Core.Option
use distributed_concurrent_f.Prelude.{
  ◌++◌, true, false, [], ◌∷◌, ◌≡◌, refl, Bytes, codes, pos, some, length, ◌≤◌, arith, if◌then◌else◌,
  str_eq,
}
use distributed_concurrent_f.CString.{
  is_space, skip_spaces, trim_newline, split_string, tokens_from, atoi, digits_value,
}
use distributed_concurrent_f.FileParser.{
  is_delimiter, sentences_loop, split_into_sentences, words_loop, close_word, split_into_words,
  join_words, join_words_loop, word_gap, join_sentences, join_sentences_loop, sentence_gap,
  open_sentence, insert_words, rejoin, apply_single_update,
}
use distributed_concurrent_f.StorageServer.{is_locked}
use distributed_concurrent_f.StorageServer.Locks.{locked}
use distributed_concurrent_f.FileOps.{
  ack_write, write_ok, InfoUpdate, info_update, file_path, or_empty, out_of_range, max_valid_index,
  last_char, parse_update, after_blank, apply_updates,
}
use distributed_concurrent_f.FileOps.Range.{admits, delimiters}
use distributed_concurrent_f.FileOps.Write.{starts}
use distributed_concurrent_f.FileOps.Connection.Write.{handle_ss_write}
use distributed_concurrent_f.FileOps.Reported.{info_words, info_update_text, write-reported}
use distributed_concurrent_f.Common.{get_word_count, count_loop}
use distributed_concurrent_f.Decimal.{print_int, print_nat, digits}
use distributed_concurrent_f.HashTable.{ht_get}
use distributed_concurrent_f.HashTable.Chain.{FileMetadata}
use distributed_concurrent_f.NameServer.SsHandler.{nm_handle_ss_message}
use distributed_concurrent_f.Tests.Names.{nm}
use distributed_concurrent_f.Client.{write_loop}
use distributed_concurrent_f.Client.Session.{updates_of, lines_typed}
use distributed_concurrent_f.Tests.Server.{server, files, name, name-Fits, name_short, no_locks}
use distributed_concurrent_f.Tests.Network.{
  lines, name-IsWord, around, around-Directed, around-Serves, other,
}
use distributed_concurrent_f.Client.{newline}
use distributed_concurrent_f.Client.Commands.{client_parse_and_execute}
use distributed_concurrent_f.Client.Output.{shown}
use distributed_concurrent_f.Client.WriteRead.{write-read}
use distributed_concurrent_f.FileOps.Connection.Write.{Written}

abbrev new_text : Bytes
new_text = codes "One and two."

may_start : starts server files name (pos 0) ≡ true
unfolding is_locked admits delimiters out_of_range max_valid_index last_char file_path str_eq
    split_into_sentences sentences_loop skip_spaces is_space is_delimiter
may_start = refl

applied :
    apply_updates
      (or_empty (files.files (file_path server name)))
      (pos 0)
      (updates_of (lines_typed (map trim_newline lines)))
    ≡ some new_text
unfolding file_path str_eq updates_of lines_typed trim_newline parse_update after_blank split_string
    tokens_from atoi digits_value skip_spaces is_space apply_updates apply_single_update
    open_sentence insert_words rejoin split_into_sentences sentences_loop is_delimiter
    split_into_words words_loop close_word join_words join_words_loop word_gap join_sentences
    join_sentences_loop sentence_gap
applied = refl

message_fits : length (info_words (info_update name (length new_text) new_text)) ≤ 4095
unfolding info_update print_int print_nat digits get_word_count count_loop is_space
message_fits = omega arith

write-reported_example :
    ((handle_ss_write server files name (pos 0) (write_loop lines).sent).replies
      ≡ ack_write ∷ write_ok ∷ [])
    × ((handle_ss_write server files name (pos 0) (write_loop lines).sent).files.files
          (file_path server name)
        ≡ some new_text)
    × (locked
          (handle_ss_write server files name (pos 0) (write_loop lines).sent).server
          name
          (pos 0)
        ≡ false)
    × (u : InfoUpdate) × ((handle_ss_write server files name (pos 0) (write_loop lines).sent).to_nm
        ≡ u ∷ [])
    × (ht_get (nm_handle_ss_message nm (info_update_text u) (pos 9)).file_table name ≡ (
        if str_eq name name
        then Option.map
            (λ (m : FileMetadata). record m {
              size = pos (length new_text);
              word_count = pos (get_word_count new_text);
              char_count = pos (length new_text);
              last_modified = pos 9;
            })
            (ht_get nm.file_table name)
        else ht_get nm.file_table name))
write-reported_example =
    write-reported server files name (pos 0) lines new_text nm name (pos 9) name-Fits name_short tt
      no_locks may_start refl applied name-IsWord message_fits

-- The server and its files after that.
abbrev written : Written
written = handle_ss_write server files name (pos 0) (write_loop lines).sent

write-read_example :
    shown
      (client_parse_and_execute
        (around written.server written.files)
        (codes "READ " ++ name)).events
    ≡ new_text ++ newline
write-read_example =
    write-read server files name (pos 0) lines new_text (around written.server written.files)
      (codes "10.0.0.1") (pos 9000) other name-Fits name_short tt no_locks may_start refl applied
      name-IsWord (omega arith) (around-Directed written.server written.files)
      (around-Serves written.server written.files)
