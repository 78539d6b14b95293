-- ===== src/FileOps/Commit.antt =====
-- The commit of a write session in storage_server/file_ops.c: what it does to the files and the locks.
use distributed_concurrent_f.Prelude.{
  Bool, true, not, ◌&&◌, List, [], ◌∷◌, length, ◌≡◌, ◌∙◌, refl, arith, Bytes, ℤ, ◌+ℤ◌, Option, none,
  some, str_eq, str_eq_iff, if◌then◌else◌,
}
use distributed_concurrent_f.StorageServer.{
  StorageServer, log_modification, get_sentence_shift, get_file_commit_lock, unlock_sentence,
}
use distributed_concurrent_f.StorageServer.Locks.{
  locked, same, unique_locks, unlock_sentence_lem, unlock_unique, unlock_sentence_lem,
}
use distributed_concurrent_f.UndoHandler.{FileSystem, create_undo_backup}
use distributed_concurrent_f.UndoHandler.Laws.{
  backup_text, removed_text, backup_files, backup_flags,
}
use distributed_concurrent_f.FileOps.{
  real_sent_num, Reply, write_ok, bad_update, write_failed, file_path, undo_path, or_empty, Session,
  Update, InfoUpdate, info_update, apply_updates, Outcome, commit_updates, write_commit,
}
use distributed_concurrent_f.FileOps.Write.{Fits, paths_ne}

commit_lock_rest :
    (ss : StorageServer) (f : Bytes)
    → ((get_file_commit_lock ss f).1.storage_path ≡ ss.storage_path)
      × ((get_file_commit_lock ss f).1.sentence_locks ≡ ss.sentence_locks)
      × ((get_file_commit_lock ss f).1.mod_log ≡ ss.mod_log)
      × ((get_file_commit_lock ss f).1.next_log_id ≡ ss.next_log_id)
unfolding get_file_commit_lock
commit_lock_rest ss f = ground arith

log_rest :
    (ss : StorageServer) (f : Bytes) (n d : ℤ)
    → (log_modification ss f n d).sentence_locks ≡ ss.sentence_locks
unfolding log_modification
log_rest ss f n d = ground arith

-- The text after all updates, if each can be applied.
unfoldable pub updated : StorageServer → FileSystem → Session → List Update → Option Bytes
updated ss fs s updates =
    apply_updates (or_empty (fs.files (file_path ss s.filename))) (real_sent_num ss s) updates

-- The reply, and the text of the file, by the result of the updates, whether the file can be written,
-- and the text before.
unfoldable pub commit_reply : Option Bytes → Bool → Reply
commit_reply none can_write = bad_update
commit_reply (some text) can_write = if can_write then write_ok else write_failed

unfoldable pub commit_text : Option Bytes → Bool → Option Bytes → Option Bytes
commit_text none can_write old = old
commit_text (some text) can_write old = if can_write then some text else old

-- What the name server is told.
unfoldable pub commit_report : Option Bytes → Bool → Bytes → List InfoUpdate
commit_report none can_write filename = []
commit_report (some text) can_write filename =
    if can_write then info_update filename (length text) text ∷ [] else []

-- What a commit does, on each of its branches, `text` being the result of the updates: a text is
-- stored and reported if the file can be written, and the backup is made whatever becomes of the updates.
pub record Commits (ss : StorageServer) (fs : FileSystem) (s : Session) (text : Option Bytes)
    (out : Outcome) : Type 0 where
  pub reply : out.reply ≡ commit_reply text (fs.can_write (file_path ss s.filename))
  pub files :
      (q : Bytes)
      → out.files.files q ≡ (
          if str_eq q (file_path ss s.filename)
          then commit_text text (fs.can_write (file_path ss s.filename)) (fs.files q)
          else if str_eq q (undo_path ss s.filename)
          then backup_text
              (fs.files (file_path ss s.filename))
              (fs.can_write (undo_path ss s.filename))
              (removed_text
                (fs.can_unlink (undo_path ss s.filename))
                (fs.files (undo_path ss s.filename)))
          else fs.files q)
  pub locks :
      (g : Bytes) (k : ℤ)
      → locked out.server g k ≡ (not (same s.filename s.sent_num g k) && locked ss g k)
  pub reports : out.to_nm ≡ commit_report text (fs.can_write (file_path ss s.filename)) s.filename
  pub kept : (out.server.storage_path ≡ ss.storage_path) × (out.files.can_rename ≡ fs.can_rename)

commit_updates_lem :
    (ss : StorageServer) (fs : FileSystem) (f q before : Bytes) (n : ℤ) (text : Option Bytes)
    → let out = commit_updates ss fs f n before text in
      let w = fs.can_write (file_path ss f) in
      (out.reply ≡ commit_reply text w)
      × (out.files.files q
          ≡ (if str_eq q (file_path ss f) then commit_text text w (fs.files q) else fs.files q))
      × (out.server.sentence_locks ≡ ss.sentence_locks)
      × (out.server.storage_path ≡ ss.storage_path)
      × (out.files.can_rename ≡ fs.can_rename)
      × (out.to_nm ≡ commit_report text w f)
unfolding commit_updates log_modification commit_reply commit_text commit_report
commit_updates_lem ss fs f q before n none = (refl, ground arith, refl, refl, refl, refl)
commit_updates_lem ss fs f q before n (some t) = ground arith

-- The call of `commit_updates` in `write_commit`, in terms of the state before it.
abbrev pub inner : StorageServer → FileSystem → Session → List Update → Outcome
inner ss fs s updates =
    commit_updates (get_file_commit_lock ss s.filename).1
      (create_undo_backup fs (file_path ss s.filename) (undo_path ss s.filename)).1 s.filename
      (real_sent_num ss s) (or_empty (fs.files (file_path ss s.filename))) (updated ss fs s updates)

write_commit-inner :
    (ss : StorageServer) (fs : FileSystem) (s : Session) (updates : List Update)
    → Fits ss s.filename
    → write_commit ss fs s updates ≡ record (inner ss fs s updates) {
      server = unlock_sentence (inner ss fs s updates).server s.filename s.sent_num;
    }
unfolding write_commit real_sent_num updated get_sentence_shift str_eq
write_commit-inner ss fs s updates h =
    let p = file_path ss s.filename in
    let u = undo_path ss s.filename in
    let before : (create_undo_backup fs p u).1.files p ≡ fs.files p =
      ground (arith, backup_files fs p u p (paths_ne ss s.filename h), paths_ne ss s.filename h) in
    rw (before, (commit_lock_rest ss s.filename).2)

-- For a commit whose paths are not cut, where no lock is held twice, the reply, every file and
-- every lock are as `Commits` says on each branch. If it can be written, the backup holds the text
-- before the commit, if there was one, also when the updates fail.
pub write_commit_lem :
    (ss : StorageServer) (fs : FileSystem) (s : Session) (updates : List Update)
    → Fits ss s.filename
    → unique_locks ss.sentence_locks ≡ true
    → Commits ss fs s (updated ss fs s updates) (write_commit ss fs s updates)
write_commit_lem ss fs s updates h v =
    let f = s.filename in
    let ss' = (get_file_commit_lock ss f).1 in
    let fs' = (create_undo_backup fs (file_path ss f) (undo_path ss f)).1 in
    let ne = paths_ne ss f h in
    let same_path : file_path ss' f ≡ file_path ss f =
      unfold file_path in rw (commit_lock_rest ss f).0 in
    let step = λ (q : Bytes).
      commit_updates_lem ss' fs' f q (or_empty (fs.files (file_path ss f))) (real_sent_num ss s)
        (updated ss fs s updates) in
    let flags = backup_flags fs (file_path ss f) (undo_path ss f) in
    rw (write_commit-inner ss fs s updates h) (record {
      reply = (step []).0 ∙ rw (same_path, flags.0);
      files = λ q.
          (step q).1
          ∙ rw (same_path, flags.0, backup_files fs (file_path ss f) (undo_path ss f) q ne)
              (ground (arith, str_eq_iff q (file_path ss f)));
      locks = λ g k.
          unlock_sentence_lem (inner ss fs s updates).server f g s.sent_num k
            (rw ((step []).2, (commit_lock_rest ss f).1) v)
          ∙ rw ((step []).2, (commit_lock_rest ss f).1);
      reports = (step []).5 ∙ rw (same_path, flags.0);
      kept =
          unfold unlock_sentence in
          ((step []).3 ∙ (commit_lock_rest ss f).0, (step []).4 ∙ flags.1);
    })

commit_keeps_locks :
    (ss : StorageServer) (fs : FileSystem) (s : Session) (updates : List Update)
    → (l : StorageServer) × (l.sentence_locks ≡ ss.sentence_locks)
      × ((write_commit ss fs s updates).server ≡ unlock_sentence l s.filename s.sent_num)
unfolding write_commit
commit_keeps_locks ss fs s updates =
    let f = s.filename in
    let ss' = (get_file_commit_lock ss f).1 in
    let fs' = (create_undo_backup fs (file_path ss f) (undo_path ss f)).1 in
    let before = or_empty (fs'.files (file_path ss f)) in
    let n = s.sent_num +ℤ get_sentence_shift ss' f s.sent_num s.start_log_id in
    let step = commit_updates_lem ss' fs' f [] before n (apply_updates before n updates) in
    (_, step.2 ∙ (commit_lock_rest ss f).1, refl)

-- Where no lock is held twice, a commit frees the lock of its session and no other, also if a path
-- is cut off.
pub write_commit_locks :
    (ss : StorageServer) (fs : FileSystem) (s : Session) (updates : List Update) (g : Bytes) (k : ℤ)
    → unique_locks ss.sentence_locks ≡ true
    → locked (write_commit ss fs s updates).server g k
      ≡ (not (same s.filename s.sent_num g k) && locked ss g k)
write_commit_locks ss fs s updates g k u =
    let (l, e, out) = commit_keeps_locks ss fs s updates in
    rw (out, unlock_sentence_lem l s.filename g s.sent_num k (rw e u), e)

pub write_commit_unique :
    (ss : StorageServer) (fs : FileSystem) (s : Session) (updates : List Update)
    → unique_locks ss.sentence_locks ≡ true
    → unique_locks (write_commit ss fs s updates).server.sentence_locks ≡ true
write_commit_unique ss fs s updates u =
    let (l, e, out) = commit_keeps_locks ss fs s updates in
    rw out (unlock_unique l s.filename s.sent_num (rw e u))
