-- ===== src/Tests/Sessions.antt =====
-- Two threads: one has a session on sentence 0, and an undo has run since.
use distributed_concurrent_f.Prelude.{
  ℕ, Bytes, ℤ, true, false, ◌≡◌, ◌↔◌, refl, codes, pos, none, some, str_eq, int_eq,
}
use distributed_concurrent_f.StorageServer.{get_current_log_id, try_lock_sentence, is_locked}
use distributed_concurrent_f.CString.{is_space, skip_spaces}
use distributed_concurrent_f.FileParser.{is_delimiter, sentences_loop, split_into_sentences}
use distributed_concurrent_f.StorageServer.Locks.{locked}
use distributed_concurrent_f.FileOps.{
  write_begin, handle_ss_undo, out_of_range, max_valid_index, file_path, last_char,
}
use distributed_concurrent_f.FileOps.Sessions.{
  System, begin, undo, start, Reach, here, next, update, same_sentence, ShortNames,
}
use distributed_concurrent_f.FileOps.Sessions.Safety.{
  HasSession, mutual_exclusion, locked_iff_session,
}
use distributed_concurrent_f.FileOps.Sessions.Liveness.{Steps, all_locks_end}
use distributed_concurrent_f.Tests.Server.{server, files, name, name_short, session}

abbrev begun : System
begun = record {
  server = (write_begin server files name (pos 0)).server;
  files = files;
  session =
      update (start (codes "data") files).session 0 (write_begin server files name (pos 0)).session;
}

abbrev undone : System
undone = record {
  server = (handle_ss_undo begun.server begun.files name).server;
  files = (handle_ss_undo begun.server begun.files name).files;
  session = begun.session;
}

one_sentence : same_sentence session session ≡ true
unfolding str_eq int_eq
one_sentence = refl

undone-Reach : Reach (codes "data") files undone
undone-Reach = next (next here (begin 0 name (pos 0) refl refl)) (undo name refl)

undone-ShortNames : ShortNames undone-Reach
unfolding undone-Reach
undone-ShortNames = ((tt, name_short), tt)

in_session : begun.session 0 ≡ some session
unfolding write_begin get_current_log_id try_lock_sentence is_locked out_of_range max_valid_index
    file_path split_into_sentences sentences_loop skip_spaces is_space is_delimiter last_char str_eq
in_session = refl

mutual_exclusion_example : ◌≡◌ {A = ℕ} 0 0
mutual_exclusion_example =
    mutual_exclusion undone-Reach undone-ShortNames 0 0 session session in_session in_session
      one_sentence

locked_iff_session_example :
    (locked undone.server name (pos 0) ≡ true) ↔ HasSession undone name (pos 0)
locked_iff_session_example = locked_iff_session undone-Reach undone-ShortNames name (pos 0)

all_locks_end_example :
    (t : System) × Steps undone t
    × ((i : ℕ) → t.session i ≡ none)
    × ((f : Bytes) (n : ℤ) → locked t.server f n ≡ false)
all_locks_end_example = all_locks_end undone-Reach undone-ShortNames
