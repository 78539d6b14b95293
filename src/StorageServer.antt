-- ===== src/StorageServer.antt =====
-- storage_server/storage_server.c: the locks on sentences, the commit lock of a file, and the log of
-- modifications. The mutex `internal_locks_mutex` makes each operation one step. Names longer than
-- 255 bytes are cut by `strncpy`, whose unwritten last byte is read as the NUL; counters do not wrap.
pub mod Locks
pub mod Log
pub mod Scan
use distributed_concurrent_f.Prelude.{
  take, ℕ, ◌+◌, Bool, true, false, ◌&&◌, List, [], ◌∷◌, ◌++◌, Bytes, ℤ, pos, ◌+ℤ◌, int_eq, int_lt,
  str_eq, copy_name, leb, if◌then◌else◌,
}

pub record SentenceLockNode : Type 0 where
  pub filename : Bytes
  pub sentence_num : ℤ

pub record ModificationLogNode : Type 0 where
  pub id : ℕ
  pub filename : Bytes
  pub original_sentence_index : ℤ
  pub sentence_delta : ℤ

-- `file_locks` holds the name of each `FileLockNode`; a mutex is known by the name of its node.
pub record StorageServer : Type 0 where
  pub storage_path : Bytes
  pub file_locks : List Bytes
  pub sentence_locks : List SentenceLockNode
  pub mod_log : List ModificationLogNode
  pub next_log_id : ℕ

-- `strncpy(ss->storage_path, path, MAX_PATH_LEN - 1)`
abbrev pub ss_create : Bytes → StorageServer
ss_create path = record {
  storage_path = take 1023 path;
  file_locks = [];
  sentence_locks = [];
  mod_log = [];
  next_log_id = 0;
}

-- The new node goes to the end of the list.
unfoldable pub log_modification : StorageServer → Bytes → ℤ → ℤ → StorageServer
unfolding copy_name
log_modification ss filename index delta = if int_eq delta (pos 0) then ss else record ss {
  next_log_id = ss.next_log_id + 1;
  mod_log =
      ss.mod_log
      ++ record {
        id = ss.next_log_id;
        filename = copy_name filename;
        original_sentence_index = index;
        sentence_delta = delta;
      }
        ∷ [];
}

unfoldable pub get_current_log_id : StorageServer → ℕ
get_current_log_id ss = ss.next_log_id

-- The loop over the log.
unfoldable pub shift_loop : List ModificationLogNode → Bytes → ℤ → ℕ → ℤ → ℤ
shift_loop [] filename original_index start_log_id shift = shift
shift_loop (n ∷ log) filename original_index start_log_id shift =
    shift_loop log filename original_index start_log_id (
      if leb start_log_id n.id
        && (str_eq n.filename filename && int_lt n.original_sentence_index original_index)
      then shift +ℤ n.sentence_delta
      else shift)

unfoldable pub get_sentence_shift : StorageServer → Bytes → ℤ → ℕ → ℤ
unfolding shift_loop
get_sentence_shift ss filename original_index start_log_id =
    shift_loop ss.mod_log filename original_index start_log_id (pos 0)

unfoldable pub is_listed : List Bytes → Bytes → Bool
is_listed [] filename = false
is_listed (n ∷ l) filename = if str_eq n filename then true else is_listed l filename

-- The mutex that is returned, and the server with a new node if there was none.
unfoldable pub get_file_commit_lock : StorageServer → Bytes → Bytes × StorageServer
unfolding is_listed
get_file_commit_lock ss filename =
    if is_listed ss.file_locks filename
    then (filename, ss)
    else (copy_name filename, record ss { file_locks = copy_name filename ∷ ss.file_locks })

-- The test of both loops over the sentence locks.
unfoldable pub is_lock : SentenceLockNode → Bytes → ℤ → Bool
is_lock n filename sent_num = str_eq n.filename filename && int_eq n.sentence_num sent_num

unfoldable pub is_locked : List SentenceLockNode → Bytes → ℤ → Bool
is_locked [] filename sent_num = false
is_locked (n ∷ l) filename sent_num =
    if is_lock n filename sent_num then true else is_locked l filename sent_num

unfoldable pub try_lock_sentence : StorageServer → Bytes → ℤ → Bool × StorageServer
try_lock_sentence ss filename sent_num =
    if is_locked ss.sentence_locks filename sent_num then (false, ss) else (
      true,
      record ss {
        sentence_locks =
            record { filename = copy_name filename; sentence_num = sent_num } ∷ ss.sentence_locks;
      },
    )

unfoldable pub remove_lock : List SentenceLockNode → Bytes → ℤ → List SentenceLockNode
remove_lock [] filename sent_num = []
remove_lock (n ∷ l) filename sent_num =
    if is_lock n filename sent_num then l else n ∷ remove_lock l filename sent_num

unfoldable pub unlock_sentence : StorageServer → Bytes → ℤ → StorageServer
unlock_sentence ss filename sent_num = record ss {
  sentence_locks = remove_lock ss.sentence_locks filename sent_num;
}
