-- ===== src/Tests/Server.antt =====
-- The locks, the log, a write session and an undo on a server of one file.
use distributed_concurrent_f.Prelude.{
  int_eq, false, ◌≤◌, true, List, [], ◌∷◌, ◌≡◌, refl, arith, Bytes, codes, length, max_name, pos,
  ◌+ℤ◌, int_lt, none, some, str_eq, if◌then◌else◌,
}
use distributed_concurrent_f.StorageServer.{
  StorageServer, ss_create, get_sentence_shift, get_current_log_id, try_lock_sentence, is_locked,
}
use distributed_concurrent_f.StorageServer.Locks.{same, unique_locks}
use distributed_concurrent_f.StorageServer.Log.{
  Modification, log_all, total_shift, shift_of_session,
}
use distributed_concurrent_f.UndoHandler.{FileSystem}
use distributed_concurrent_f.FileOps.{
  Session, Update, file_path, undo_path, write_begin, write_commit, handle_ss_undo,
}
use distributed_concurrent_f.FileOps.Write.{Fits, BeginsWrite, write_begin_lem}
use distributed_concurrent_f.FileOps.Commit.{Commits, updated, write_commit_lem}
use distributed_concurrent_f.FileOps.Undo.{Undone, undo-write_commit}
use distributed_concurrent_f.FileOps.Collide.{after_commit, session_now, one_sentence_twice}

abbrev pub server : StorageServer
server = ss_create (codes "data")

abbrev pub name : Bytes
name = codes "a.txt"

abbrev pub old_text : Bytes
old_text = codes "One two."

abbrev pub files : FileSystem
files = record {
  files = λ q. if str_eq q (codes "data/a.txt") then some old_text else none;
  can_write = λ q. true;
  can_rename = λ p q. true;
  can_unlink = λ q. true;
}

abbrev pub session : Session
session = record { filename = name; sent_num = pos 0; start_log_id = 0 }

abbrev updates : List Update
updates = record { word_idx = pos 1; content = codes "and" } ∷ []

pub name_short : length name ≤ max_name
name_short = omega arith

pub name-Fits : Fits server name
name-Fits = omega arith

pub no_locks : unique_locks server.sentence_locks ≡ true
unfolding unique_locks
no_locks = refl

pub file_there : files.files (file_path server name) ≡ some old_text
unfolding file_path str_eq
file_there = refl

abbrev locked_server : StorageServer
locked_server = (try_lock_sentence server name (pos 0)).1

one_lock : unique_locks locked_server.sentence_locks ≡ true
unfolding unique_locks try_lock_sentence is_locked
one_lock = refl

abbrev modifications : List Modification
modifications = record { filename = name; index = pos 1; delta = pos 2 } ∷ []

shift_of_session_example :
    get_sentence_shift (log_all server modifications) name (pos 3) (get_current_log_id server)
    ≡ total_shift name (pos 3) (pos 0) modifications
shift_of_session_example = shift_of_session server modifications name (pos 3) tt (name_short, tt)

total : total_shift name (pos 3) (pos 0) modifications ≡ pos 2
unfolding total_shift str_eq int_lt ◌+ℤ◌
total = refl

write_begin_lem_example :
    BeginsWrite server files name (pos 1) (write_begin server files name (pos 1))
write_begin_lem_example = write_begin_lem server files name (pos 1) name_short no_locks

write_commit_lem_example :
    Commits server files session
      (updated server files session updates)
      (write_commit server files session updates)
write_commit_lem_example = write_commit_lem server files session updates name-Fits no_locks

undo-write_commit_example : Undone files (file_path server name) (undo_path server name) old_text (
    handle_ss_undo
      (write_commit server files session updates).server
      (write_commit server files session updates).files
      name)
undo-write_commit_example =
    undo-write_commit server files session updates old_text name-Fits no_locks file_there refl refl

before : int_lt (pos 0) (pos 2) ≡ true
unfolding int_lt
before = refl

pos_one : int_eq (pos 1) (pos 0) ≡ false
unfolding int_eq
pos_one = refl

one_sentence_twice_example :
    (same name (pos 2) name (pos 2 +ℤ pos 1) ≡ false)
    × ((write_commit
            (after_commit server name (pos 0) (pos 1))
            files
            (session_now server name (pos 2))
            updates).files.files
          (file_path server name)
        ≡ (write_commit
              (after_commit server name (pos 0) (pos 1))
              files
              (session_now (after_commit server name (pos 0) (pos 1)) name (pos 2 +ℤ pos 1))
              updates).files.files
            (file_path server name))
one_sentence_twice_example =
    one_sentence_twice server files name (file_path server name) (pos 2) (pos 0) (pos 1) updates tt
      name-Fits no_locks name_short before pos_one
