-- ===== src/FileOps/Sessions/Invariant.antt =====
-- Which thread holds which lock: true at the start and kept by every step of a storage server.
use distributed_concurrent_f.Prelude.{
  ℕ, ◌≤◌, true, not, ◌&&◌, List, [], ◌≡◌, refl, sym, arith, Bytes, ℤ, none, some, length, max_name,
  str_eq_iff, str_eq_refl, int_eq_iff, Bool-cases, inl, inr,
}
use mathlib.Core.Path.{subst}
use distributed_concurrent_f.StorageServer.{StorageServer, is_locked, get_file_commit_lock}
use distributed_concurrent_f.StorageServer.Locks.{locked, same, unique_locks}
use distributed_concurrent_f.UndoHandler.{FileSystem}
use distributed_concurrent_f.FileOps.{
  Session, Begun, Update, write_begin, write_commit, handle_ss_undo,
}
use distributed_concurrent_f.FileOps.Connection.{ss_nm_command}
use distributed_concurrent_f.FileOps.Write.{
  starts, BeginsWrite, write_begin_lem, write_begin_unique,
}
use distributed_concurrent_f.FileOps.Commit.{write_commit_locks, write_commit_unique}
use distributed_concurrent_f.FileOps.Sessions.{
  System, update, Step, begin, commit, undo, nm_command, start, Reach, here, next, same_sentence,
  ShortStep, ShortNames,
}

pub record Inv (s : System) : Type 0 where
  pub unique : unique_locks s.server.sentence_locks ≡ true
  pub held :
      (i : ℕ) (x : Session) → s.session i ≡ some x → locked s.server x.filename x.sent_num ≡ true
  pub apart :
      (i j : ℕ) (x y : Session)
      → s.session i ≡ some x
      → s.session j ≡ some y
      → same_sentence x y ≡ true
      → i ≡ j
  pub owned :
      (g : Bytes) (k : ℤ)
      → locked s.server g k ≡ true
      → (i : ℕ) × (x : Session) × (s.session i ≡ some x) × (same x.filename x.sent_num g k ≡ true)

none_locked : (g : Bytes) (k : ℤ) → is_locked [] g k ≡ true → ⊥
unfolding is_locked
none_locked g k h = cc

start-Inv : (path : Bytes) (fs : FileSystem) → Inv (start path fs)
start-Inv path fs = record {
  unique = unfold unique_locks in refl;
  held = λ i x h. cc;
  apart = λ i j x y h. cc;
  owned = λ g k h. absurd (none_locked g k h);
}

undo_keeps_locks :
    (ss : StorageServer) (fs : FileSystem) (f : Bytes)
    → (handle_ss_undo ss fs f).server.sentence_locks ≡ ss.sentence_locks
unfolding handle_ss_undo get_file_commit_lock
undo_keeps_locks ss fs f = ground arith

module _ (s : System) (inv : Inv s) where
  module _ (i : ℕ) (f : Bytes) (n : ℤ) (idle : s.session i ≡ none)
      (short : length f ≤ max_name) where
    begun : Begun
    begun = write_begin s.server s.files f n

    after : System
    after = record {
      server = begun.server;
      files = s.files;
      session = update s.session i begun.session;
    }

    spec : BeginsWrite s.server s.files f n begun
    unfolding begun
    spec = write_begin_lem s.server s.files f n short inv.unique

    begin-Inv : Inv after
    unfolding after begun
    begin-Inv = record {
      unique = write_begin_unique s.server s.files f n short inv.unique;
      held = λ j x h. ground (
        arith,
        spec.session,
        spec.locks x.filename x.sent_num,
        inv.held j x,
        str_eq_refl f,
        int_eq_iff n n,
      );
      apart = λ j k x y h h' e. ground (
        arith,
        spec.session,
        inv.held j x,
        inv.held k y,
        inv.apart j k x y,
        str_eq_iff x.filename y.filename,
        int_eq_iff x.sent_num y.sent_num,
      );
      owned = λ g k h. elim (Bool-cases (starts s.server s.files f n && same f n g k)) [
        | inl new ↦ (
          i,
          record { filename = f; sent_num = n; start_log_id = s.server.next_log_id },
          ground (arith, spec.session),
          ground arith,
        )
        | inr old ↦
            let (j, x, at_j, e) = inv.owned g k (ground (arith, spec.locks g k)) in
            (j, x, ground arith, e)
      ];
    }

  module _ (i : ℕ) (x : Session) (updates : List Update) (busy : s.session i ≡ some x) where
    done : System
    done = record {
      server = (write_commit s.server s.files x updates).server;
      files = (write_commit s.server s.files x updates).files;
      session = update s.session i none;
    }

    freed :
        (g : Bytes) (k : ℤ)
        → locked done.server g k ≡ (not (same x.filename x.sent_num g k) && locked s.server g k)
    unfolding done
    freed g k = write_commit_locks s.server s.files x updates g k inv.unique

    commit-Inv : Inv done
    unfolding done
    commit-Inv = record {
      unique = write_commit_unique s.server s.files x updates inv.unique;
      held = λ j y h. ground (arith, freed y.filename y.sent_num, inv.held j y, inv.apart i j x y);
      apart = λ j k y z h h' e. ground (arith, inv.apart j k y z);
      owned = λ g k h.
          let (j, y, at_j, e) = inv.owned g k (ground (arith, freed g k)) in
          (j, y, ground (arith, freed g k), e);
    }

  undo-Inv :
      (f : Bytes)
      → Inv (record {
        server = (handle_ss_undo s.server s.files f).server;
        files = (handle_ss_undo s.server s.files f).files;
        session = s.session;
      })
  undo-Inv f =
      let e = undo_keeps_locks s.server s.files f in
      record {
        unique = rw e inv.unique;
        held = λ i x h. rw e (inv.held i x h);
        apart = inv.apart;
        owned = λ g k h. inv.owned g k (rw e at h);
      }

  -- A step that changes neither locks nor sessions.
  files-Inv :
      (fs : FileSystem) → Inv (record { server = s.server; files = fs; session = s.session })
  files-Inv fs = record {
    unique = inv.unique;
    held = inv.held;
    apart = inv.apart;
    owned = inv.owned;
  }

pub Step-Inv : {s t : System} → (st : Step s t) → ShortStep st → Inv s → Inv t
unfolding after begun done
Step-Inv {s} (begin i f n idle e) short inv = subst Inv (sym e) (begin-Inv s inv i f n idle short)
Step-Inv {s} (commit i x updates busy e) short inv =
    subst Inv (sym e) (commit-Inv s inv i x updates busy)
Step-Inv {s} (undo f e) short inv = subst Inv (sym e) (undo-Inv s inv f)
Step-Inv {s} (nm_command buffer e) short inv =
    subst Inv (sym e) (files-Inv s inv (ss_nm_command s.server s.files buffer).1)

pub Reach-Inv :
    {path : Bytes} {fs : FileSystem} {s : System} → (r : Reach path fs s) → ShortNames r → Inv s
Reach-Inv {path} {fs} here short = start-Inv path fs
Reach-Inv (next r st) short = Step-Inv st short.1 (Reach-Inv r short.0)
