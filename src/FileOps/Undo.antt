-- ===== src/FileOps/Undo.antt =====
-- An undo after a commit, in storage_server/file_ops.c.
use distributed_concurrent_f.Prelude.{
  true, List, ◌≡◌, ◌∙◌, ap, arith, Bytes, none, some, str_eq, str_eq_iff, str_eq_refl,
  if◌then◌else◌,
}
use distributed_concurrent_f.StorageServer.{StorageServer}
use distributed_concurrent_f.StorageServer.Locks.{unique_locks}
use distributed_concurrent_f.UndoHandler.{FileSystem, perform_undo}
use distributed_concurrent_f.UndoHandler.Laws.{backup_text, undo_files}
use distributed_concurrent_f.FileOps.{
  undo_ok, no_undo, file_path, undo_path, Session, Update, Outcome, write_commit, handle_ss_undo,
}
use distributed_concurrent_f.FileOps.Write.{Fits, paths_ne}
use distributed_concurrent_f.FileOps.Commit.{write_commit_lem}

-- The reply of an undo, and the files after it.
handle_ss_undo_lem :
    (ss : StorageServer) (fs : FileSystem) (f : Bytes)
    → (handle_ss_undo ss fs f).files ≡ (perform_undo fs (file_path ss f) (undo_path ss f)).1
unfolding handle_ss_undo
handle_ss_undo_lem ss fs f = ground arith

undo_reply :
    (ss : StorageServer) (fs : FileSystem) (f : Bytes)
    → (handle_ss_undo ss fs f).reply
      ≡ (if (perform_undo fs (file_path ss f) (undo_path ss f)).0 then undo_ok else no_undo)
unfolding handle_ss_undo
undo_reply ss fs f = ground arith

-- An undo is taken back to: the files after it.
pub record Undone (fs : FileSystem) (path undo : Bytes) (old : Bytes) (out : Outcome) : Type 0 where
  pub reply : out.reply ≡ undo_ok
  pub files :
      (q : Bytes)
      → out.files.files q
        ≡ (if str_eq q path then some old else if str_eq q undo then none else fs.files q)

-- Where the file was there, its paths are not cut, no lock is held twice, and the backup can be
-- written and renamed, an undo after a commit, whatever its updates, puts the old text back, takes
-- the backup away, and leaves every other file as it was before the commit.
pub undo-write_commit :
    (ss : StorageServer) (fs : FileSystem) (s : Session) (updates : List Update) (old : Bytes)
    → Fits ss s.filename
    → unique_locks ss.sentence_locks ≡ true
    → fs.files (file_path ss s.filename) ≡ some old
    → fs.can_write (undo_path ss s.filename) ≡ true
    → fs.can_rename (undo_path ss s.filename) (file_path ss s.filename) ≡ true
    → Undone fs (file_path ss s.filename) (undo_path ss s.filename) old (
        handle_ss_undo
          (write_commit ss fs s updates).server
          (write_commit ss fs s updates).files
          s.filename)
unfolding backup_text
undo-write_commit ss fs s updates old h v was w r =
    let p = file_path ss s.filename in
    let u = undo_path ss s.filename in
    let out = write_commit ss fs s updates in
    let c = write_commit_lem ss fs s updates h v in
    let ne = paths_ne ss s.filename h in
    let p' : file_path out.server s.filename ≡ p = unfold file_path in rw (c.kept.0) in
    let u' : undo_path out.server s.filename ≡ u = unfold undo_path in rw (c.kept.0) in
    let saved : out.files.files u ≡ some old =
      c.files u ∙ ground (arith, str_eq_iff u p, str_eq_refl u, str_eq_refl p) in
    let can : out.files.can_rename u p ≡ true = rw c.kept.1 r in
    record {
      reply =
          undo_reply out.server out.files s.filename
          ∙ rw (p', u', (undo_files out.files p u p old ne saved can).0);
      files = λ q.
          ap (λ (fs' : FileSystem). fs'.files q)
            (handle_ss_undo_lem out.server out.files s.filename)
          ∙ rw (p', u', (undo_files out.files p u q old ne saved can).1, c.files q) (ground arith);
    }
