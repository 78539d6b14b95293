-- ===== src/FileOps/Connection/Write.antt =====
-- A WRITE from its request to its end on a storage server that serves nobody else meanwhile:
-- `handle_ss_write` of storage_server/file_ops.c as a whole.
use mathlib.Core.List.{map}
use distributed_concurrent_f.Prelude.{
  ◌≤◌, true, false, List, [], ◌∷◌, none, some, ◌≡◌, ◌∙◌, refl, arith, Bytes, ℤ, pos, +ℤ_zero,
  length, max_name, str_eq_refl, int_eq_iff,
}
use distributed_concurrent_f.CString.{trim_newline}
use distributed_concurrent_f.StorageServer.{
  StorageServer, get_sentence_shift, try_lock_sentence, unlock_sentence,
}
use distributed_concurrent_f.StorageServer.Locks.{locked, unique_locks}
use distributed_concurrent_f.StorageServer.Log.{IsLog, shift_loop_old}
use distributed_concurrent_f.UndoHandler.{FileSystem}
use distributed_concurrent_f.FileOps.{
  real_sent_num, Reply, ack_write, write_ok, Session, InfoUpdate, info_update, Outcome, Update,
  Begun, file_path, or_empty, write_begin, write_commit, read_updates, apply_updates,
}
use distributed_concurrent_f.FileOps.Write.{Fits, starts, write_begin_lem, write_begin_unique}
use distributed_concurrent_f.FileOps.Commit.{
  updated, commit_reply, commit_report, commit_text, write_commit_lem,
}
use distributed_concurrent_f.Client.{write_loop}
use distributed_concurrent_f.Client.Session.{updates_of, lines_typed, read_updates-write_loop}

pub record Written : Type 0 where
  pub replies : List Reply
  pub server : StorageServer
  pub files : FileSystem
  pub to_nm : List InfoUpdate

abbrev pub ended_write : Begun → Outcome → Written
ended_write b out = record {
  replies = b.reply ∷ out.reply ∷ [];
  server = out.server;
  files = out.files;
  to_nm = out.to_nm;
}

-- `messages` are those of the client behind its request.
unfoldable pub handle_ss_write : StorageServer → FileSystem → Bytes → ℤ → List Bytes → Written
handle_ss_write ss fs filename sent_num messages =
    let b = write_begin ss fs filename sent_num in
    elim b.session [
      | none ↦ record { replies = b.reply ∷ []; server = b.server; files = fs; to_nm = [] }
      | some session ↦ ended_write b (write_commit b.server fs session (read_updates messages))
    ]

-- The session of a WRITE that starts.
abbrev begun_session : StorageServer → Bytes → ℤ → Session
begun_session ss f n = record { filename = f; sent_num = n; start_log_id = ss.next_log_id }

-- A WRITE that starts leaves all but the locks as it was.
begun_server :
    (ss : StorageServer) (fs : FileSystem) (f : Bytes) (n : ℤ)
    → ((write_begin ss fs f n).server.mod_log ≡ ss.mod_log)
      × ((write_begin ss fs f n).server.storage_path ≡ ss.storage_path)
unfolding write_begin try_lock_sentence unlock_sentence
begun_server ss fs f n = (ground arith, ground arith)

-- Nothing has been logged since.
no_shift :
    (ss : StorageServer) (fs : FileSystem) (f : Bytes) (n : ℤ)
    → IsLog ss
    → real_sent_num (write_begin ss fs f n).server (begun_session ss f n) ≡ n
unfolding real_sent_num get_sentence_shift
no_shift ss fs f n h =
    rw ((begun_server ss fs f n).0, shift_loop_old ss.mod_log f n ss.next_log_id (pos 0) h)
      (+ℤ_zero n)

begun_path :
    (ss : StorageServer) (fs : FileSystem) (f : Bytes) (n : ℤ)
    → file_path (write_begin ss fs f n).server f ≡ file_path ss f
unfolding file_path
begun_path ss fs f n = rw (begun_server ss fs f n).1

begun_updated :
    (ss : StorageServer) (fs : FileSystem) (f : Bytes) (n : ℤ) (updates : List Update)
    → IsLog ss
    → updated (write_begin ss fs f n).server fs (begun_session ss f n) updates
      ≡ apply_updates (or_empty (fs.files (file_path ss f))) n updates
unfolding updated
begun_updated ss fs f n updates h = rw (no_shift ss fs f n h, begun_path ss fs f n) refl

started :
    (ss : StorageServer) (fs : FileSystem) (f : Bytes) (n : ℤ) (messages : List Bytes)
    → length f ≤ max_name
    → unique_locks ss.sentence_locks ≡ true
    → starts ss fs f n ≡ true
    → handle_ss_write ss fs f n messages
      ≡ ended_write (write_begin ss fs f n) (
          write_commit
            (write_begin ss fs f n).server
            fs
            (begun_session ss f n)
            (read_updates messages))
unfolding handle_ss_write
started ss fs f n messages short unique go =
    let begins = write_begin_lem ss fs f n short unique in
    let session : (write_begin ss fs f n).session ≡ some (begun_session ss f n) =
      begins.session ∙ rw go refl in
    rw (handle_ss_write, session) refl

-- A WRITE that may start, on a log and locks in good order, ends with the two replies of success,
-- its sentence unlocked, the sizes of the new text reported to the name server, and in the file the text that the updates make which the client typed
-- before `ETIRW`. Each update can be applied, the file can be written, and names and paths are not
-- cut.
pub write-typed :
    (ss : StorageServer) (fs : FileSystem) (f : Bytes) (n : ℤ) (typed : List Bytes) (text : Bytes)
    → Fits ss f
    → length f ≤ max_name
    → IsLog ss
    → unique_locks ss.sentence_locks ≡ true
    → starts ss fs f n ≡ true
    → fs.can_write (file_path ss f) ≡ true
    → apply_updates
        (or_empty (fs.files (file_path ss f)))
        n
        (updates_of (lines_typed (map trim_newline typed)))
      ≡ some text
    → let w = handle_ss_write ss fs f n (write_loop typed).sent in
      (w.replies ≡ ack_write ∷ write_ok ∷ [])
      × (w.files.files (file_path ss f) ≡ some text)
      × (locked w.server f n ≡ false)
      × (w.to_nm ≡ info_update f (length text) text ∷ [])
      × (file_path w.server f ≡ file_path ss f)
write-typed ss fs f n typed text fits short log unique go can e =
    let b = write_begin ss fs f n in
    let updates = read_updates (write_loop typed).sent in
    let begins = write_begin_lem ss fs f n short unique in
    let fits' : Fits b.server f = rw (begun_server ss fs f n).1 fits in
    let c =
      write_commit_lem b.server fs (begun_session ss f n) updates fits'
        (write_begin_unique ss fs f n short unique) in
    let result : updated b.server fs (begun_session ss f n) updates ≡ some text =
      begun_updated ss fs f n updates log ∙ rw (read_updates-write_loop typed) e in
    let path = begun_path ss fs f n in
    let first : b.reply ≡ ack_write = begins.reply ∙ rw go refl in
    let last : (write_commit b.server fs (begun_session ss f n) updates).reply ≡ write_ok =
      c.reply ∙ rw (result, path, can) (unfold commit_reply in refl) in
    rw (started ss fs f n (write_loop typed).sent short unique go) (
      rw (first, last) refl,
      c.files (file_path ss f)
          ∙ rw (path, str_eq_refl (file_path ss f), result, can) (unfold commit_text in refl),
      c.locks f n ∙ ground (arith, str_eq_refl f, int_eq_iff n n),
      c.reports ∙ rw (result, path, can) (unfold commit_report in refl),
      unfold file_path in rw (c.kept.0) path,
    )
