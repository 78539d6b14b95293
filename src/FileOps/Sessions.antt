-- ===== src/FileOps/Sessions.antt =====
-- The threads of one storage server: every thread serves one connection, and `handle_ss_write` and
-- `handle_ss_undo` of storage_server/file_ops.c run interleaved, with the commands of the name server
-- in `ss_listen_to_nm` of storage_server/storage_server.c. A WRITE takes two steps, its start and its
-- commit, since other threads run while it waits for its client; the client may end it at any time.
-- Within a step no other thread is seen.
pub mod Invariant
pub mod Safety
pub mod Liveness
use distributed_concurrent_f.Prelude.{
  ℕ, ◌≤◌, Bool, true, false, not, ◌&&◌, ◌||◌, List, [], ◌≡◌, ◌∙◌, refl, sym, ap, arith, Bytes, ℤ,
  Option, none, some, length, max_name, ◌==◌, str_eq, str_eq_iff, str_eq_refl, int_eq, int_eq_iff,
  if◌then◌else◌, Bool-cases, inl, inr,
}
use mathlib.Core.Path.{subst}
use distributed_concurrent_f.StorageServer.{
  StorageServer, ss_create, is_locked, get_file_commit_lock, unlock_sentence,
}
use distributed_concurrent_f.StorageServer.Locks.{
  locked, same, unique_locks, unlock_sentence_lem, unlock_unique, try_lock_unique,
}
use distributed_concurrent_f.UndoHandler.{FileSystem}
use distributed_concurrent_f.FileOps.{
  Session, Begun, Update, write_begin, write_commit, handle_ss_undo,
}
use distributed_concurrent_f.FileOps.Connection.{ss_nm_command}
use distributed_concurrent_f.FileOps.Write.{
  starts, BeginsWrite, write_begin_lem, write_begin_unique,
}
use distributed_concurrent_f.FileOps.Commit.{write_commit_locks, write_commit_unique}

-- `session i` is the WRITE that thread `i` waits in.
pub record System : Type 0 where
  pub server : StorageServer
  pub files : FileSystem
  pub session : ℕ → Option Session

abbrev pub update : (ℕ → Option Session) → ℕ → Option Session → ℕ → Option Session
update f i a j = if i == j then a else f j

pub data Step (s t : System) : Type 0 where
  begin :
      (i : ℕ) (f : Bytes) (n : ℤ)
      → s.session i ≡ none
      → t ≡ record {
        server = (write_begin s.server s.files f n).server;
        files = s.files;
        session = update s.session i (write_begin s.server s.files f n).session;
      }
      → Step s t
  commit :
      (i : ℕ) (x : Session) (updates : List Update)
      → s.session i ≡ some x
      → t ≡ record {
        server = (write_commit s.server s.files x updates).server;
        files = (write_commit s.server s.files x updates).files;
        session = update s.session i none;
      }
      → Step s t
  undo :
      (f : Bytes)
      → t ≡ record {
        server = (handle_ss_undo s.server s.files f).server;
        files = (handle_ss_undo s.server s.files f).files;
        session = s.session;
      }
      → Step s t
  nm_command :
      (buffer : Bytes)
      → t ≡ record {
        server = s.server;
        files = (ss_nm_command s.server s.files buffer).1;
        session = s.session;
      }
      → Step s t

abbrev pub start : Bytes → FileSystem → System
start path fs = record { server = ss_create path; files = fs; session = λ i. none }

pub data Reach (path : Bytes) (fs : FileSystem) : System → Type 0 where
  here : Reach path fs (start path fs)
  next : {s t : System} → Reach path fs s → Step s t → Reach path fs t

-- No WRITE has begun on a file whose name is longer than 255 bytes. Such a name is cut where a lock
-- keeps it, so that the lock is not found again.
abbrev pub ShortStep : {s t : System} → Step s t → Type 0
ShortStep (begin i f n idle e) = length f ≤ max_name
ShortStep (commit i x updates busy e) = Unit
ShortStep (undo f e) = Unit
ShortStep (nm_command buffer e) = Unit

abbrev pub ShortNames : {path : Bytes} {fs : FileSystem} {s : System} → Reach path fs s → Type 0
ShortNames here = Unit
ShortNames (next r st) = ShortNames r × ShortStep st

-- Both sessions are of one sentence of one file.
abbrev pub same_sentence : Session → Session → Bool
same_sentence x y = same x.filename x.sent_num y.filename y.sent_num
