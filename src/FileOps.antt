-- ===== src/FileOps.antt =====
-- storage_server/file_ops.c: the handlers of a client connection. `handle_ss_write` is cut where it
-- waits for the client: `write_begin` up to the acknowledgement, `read_updates` for the messages of
-- the session, and `write_commit` from there to the release of the sentence lock. Other handlers
-- may run in between; the commit itself stands under the lock of the file and is one step.
pub mod Range
pub mod Write
pub mod Commit
pub mod Undo
pub mod Stream
pub mod Connection
pub mod Reported
pub mod Sessions
pub mod Collide
use mathlib.Core.List.{reverse}
use distributed_concurrent_f.Prelude.{
  ℕ, ◌+◌, ◌-◌, Bool, true, false, not, List, [], ◌∷◌, ◌++◌, Option, none, some, Bytes, codes, ℤ,
  pos, negsuc, ◌+ℤ◌, sub_ℕ, ltb, str_eq, if◌then◌else◌, length, take, get_or, drop, ◌==◌,
}
use distributed_concurrent_f.CString.{split_string, atoi, skip_spaces}
use distributed_concurrent_f.Common.{get_word_count}
use distributed_concurrent_f.FileParser.{
  is_delimiter, first_char, split_into_sentences, apply_single_update,
}
use distributed_concurrent_f.StorageServer.{
  StorageServer, log_modification, get_current_log_id, get_sentence_shift, get_file_commit_lock,
  try_lock_sentence, unlock_sentence,
}
use distributed_concurrent_f.UndoHandler.{
  FileSystem, store, unlink, create_undo_backup, perform_undo,
}

-- What the server sends to the client.
pub data Reply : Type 0 where
  ack_write : Reply  -- 202 ACK_WRITE: Ready for updates.
  write_ok : Reply  -- 200 OK: Write Successful!
  undo_ok : Reply  -- 200 OK: Undo Successful!
  bad_index : Reply  -- 400 ERROR: Sentence index out of range (...).
  no_undo : Reply  -- 404 ERROR: No undo history.
  not_found : Reply  -- 404 ERROR: File not found on SS.
  sentence_locked : Reply  -- 423 ERROR: This sentence is being edited by another user.
  bad_update : Reply  -- 500 ERROR: Invalid update application during commit.
  write_failed : Reply  -- 500 ERROR: Failed to write file.
  content : Bytes → Reply  -- the text of the file

-- `INFO_UPDATE <file> <size> <words> <chars>` to the name server
pub record InfoUpdate : Type 0 where
  pub filename : Bytes
  pub size : ℕ
  pub words : ℕ
  pub chars : ℕ

-- `"%s/%s"` and `"%s/%s.undo"` in buffers of `MAX_PATH_LEN` bytes
unfoldable pub file_path : StorageServer → Bytes → Bytes
file_path ss filename = take 1023 (ss.storage_path ++ codes "/" ++ filename)

unfoldable pub undo_path : StorageServer → Bytes → Bytes
undo_path ss filename = take 1023 (ss.storage_path ++ codes "/" ++ filename ++ codes ".undo")

abbrev pub or_empty : Option Bytes → Bytes
or_empty none = []
or_empty (some text) = text

-- The last byte that is no white space, or the NUL.
unfoldable pub last_char : Bytes → ℕ
last_char last_sent = first_char (skip_spaces (reverse last_sent))

-- A new sentence can be started only behind a delimiter, or in an empty file.
unfoldable pub max_valid_index : Bytes → ℕ
unfolding last_char
max_valid_index text =
    let sents = split_into_sentences text in
    if ltb 0 (length sents)
    then if is_delimiter (last_char (get_or sents (length sents - 1) []))
      then length sents
      else length sents - 1
    else length sents

-- `sent_num < 0 || sent_num > max`
unfoldable pub out_of_range : ℤ → ℕ → Bool
out_of_range (negsuc n) max = true
out_of_range (pos n) max = ltb max n

-- The locals of a session that live on while it waits for the client.
pub record Session : Type 0 where
  pub filename : Bytes
  pub sent_num : ℤ
  pub start_log_id : ℕ

pub record Begun : Type 0 where
  pub reply : Reply
  pub server : StorageServer
  pub session : Option Session

unfoldable pub write_begin : StorageServer → FileSystem → Bytes → ℤ → Begun
unfolding out_of_range
write_begin ss fs filename sent_num =
    let start_log_id = get_current_log_id ss in
    let (got, ss') = try_lock_sentence ss filename sent_num in
    let max = max_valid_index (or_empty (fs.files (file_path ss filename))) in
    if not got
    then record { reply = sentence_locked; server = ss'; session = none }
    else if out_of_range sent_num max
    then record {
      reply = bad_index;
      server = unlock_sentence ss' filename sent_num;
      session = none;
    }
    else record {
      reply = ack_write;
      server = ss';
      session =
          some (record { filename = filename; sent_num = sent_num; start_log_id = start_log_id });
    }

pub record Update : Type 0 where
  pub word_idx : ℤ
  pub content : Bytes

-- `strstr(buffer, " ")`, and the byte after it
unfoldable pub after_blank : Bytes → Bytes
after_blank [] = []
after_blank (c ∷ s) = elim (c == 32) [ true ↦ s | false ↦ after_blank s ]

-- One message of the session; a message of less than two words is passed over.
unfoldable pub parse_update : Bytes → Option Update
unfolding after_blank
parse_update buffer =
    let parts = split_string buffer 32 in
    if ltb (length parts) 2
    then none
    else some (record { word_idx = atoi (get_or parts 0 []); content = after_blank buffer })

abbrev queue : Option Update → List Update → List Update
queue none updates = updates
queue (some u) updates = u ∷ updates

-- The updates up to `ETIRW`, or up to the end of the messages if the client goes away.
unfoldable pub read_updates : List Bytes → List Update
unfolding parse_update
read_updates [] = []
read_updates (buffer ∷ messages) = elim (str_eq buffer (codes "ETIRW")) [
  | true ↦ []
  | false ↦ queue (parse_update buffer) (read_updates messages)
]

-- The updates in order; `none` as soon as one cannot be applied.
unfoldable pub apply_updates : Bytes → ℤ → List Update → Option Bytes
apply_updates text real_sent_num [] = some text
apply_updates text real_sent_num (u ∷ updates) =
    elim (apply_single_update text real_sent_num u.word_idx u.content) [
      | none ↦ none
      | some text' ↦ apply_updates text' real_sent_num updates
    ]

pub record Outcome : Type 0 where
  pub reply : Reply
  pub server : StorageServer
  pub files : FileSystem
  pub to_nm : List InfoUpdate

-- The `INFO_UPDATE` about a file with that text; `size` is given by the caller.
unfoldable pub info_update : Bytes → ℕ → Bytes → InfoUpdate
info_update filename size text = record {
  filename = filename;
  size = size;
  words = get_word_count text;
  chars = length text;
}

-- The commit between the lock and the unlock of the file, `fs` being the files after the backup.
unfoldable pub commit_updates :
    StorageServer → FileSystem → Bytes → ℤ → Bytes → Option Bytes → Outcome
unfolding info_update
commit_updates ss fs filename real_sent_num before none = record {
  reply = bad_update;
  server = ss;
  files = fs;
  to_nm = [];
}
commit_updates ss fs filename real_sent_num before (some text) =
    let path = file_path ss filename in
    let delta = sub_ℕ (length (split_into_sentences text)) (length (split_into_sentences before)) in
    if fs.can_write path
    then record {
      reply = write_ok;
      server = log_modification ss filename real_sent_num delta;
      files = store fs path text;
      to_nm = info_update filename (length text) text ∷ [];
    }
    else record { reply = write_failed; server = ss; files = fs; to_nm = [] }

-- The sentence that a commit changes.
unfoldable pub real_sent_num : StorageServer → Session → ℤ
real_sent_num ss session =
    session.sent_num +ℤ get_sentence_shift ss session.filename session.sent_num session.start_log_id

unfoldable pub write_commit : StorageServer → FileSystem → Session → List Update → Outcome
unfolding apply_updates commit_updates real_sent_num
write_commit ss fs session updates =
    let (file_lock, ss') = get_file_commit_lock ss session.filename in
    let path = file_path ss session.filename in
    let (saved, fs') = create_undo_backup fs path (undo_path ss session.filename) in
    let before = or_empty (fs'.files path) in
    let n = real_sent_num ss' session in
    let out = commit_updates ss' fs' session.filename n before (apply_updates before n updates) in
    record out { server = unlock_sentence out.server session.filename session.sent_num }

unfoldable pub handle_ss_undo : StorageServer → FileSystem → Bytes → Outcome
unfolding info_update
handle_ss_undo ss fs filename =
    let (file_lock, ss') = get_file_commit_lock ss filename in
    let path = file_path ss filename in
    let (done, fs') = perform_undo fs path (undo_path ss filename) in
    let text = or_empty (fs'.files path) in
    if done
    then record {
      reply = undo_ok;
      server = ss';
      files = fs';
      to_nm = info_update filename (length text) text ∷ [];
    }
    else record { reply = no_undo; server = ss'; files = fs'; to_nm = [] }

-- The chunks that are sent make up the text of the file.
unfoldable pub handle_ss_read : StorageServer → FileSystem → Bytes → Reply
handle_ss_read ss fs filename = elim (fs.files (file_path ss filename)) [
  | none ↦ not_found
  | some text ↦ content text
]
