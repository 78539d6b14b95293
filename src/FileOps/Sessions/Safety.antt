-- ===== src/FileOps/Sessions/Safety.antt =====
-- What holds in every reachable state of the threads of a storage server.
use distributed_concurrent_f.Prelude.{
  ℕ, true, ◌≡◌, ◌↔◌, arith, Bytes, ℤ, some, str_eq_iff, int_eq_iff,
}
use distributed_concurrent_f.StorageServer.Locks.{locked, same}
use distributed_concurrent_f.UndoHandler.{FileSystem}
use distributed_concurrent_f.FileOps.{Session}
use distributed_concurrent_f.FileOps.Sessions.{System, Reach, ShortNames, same_sentence}
use distributed_concurrent_f.FileOps.Sessions.Invariant.{Reach-Inv}

-- In every state that is reached without a WRITE on a name of more than 255 bytes, where the start of
-- a WRITE and its commit are one step each, no two threads have a WRITE session on one sentence number
-- of one file.
pub mutual_exclusion :
    {path : Bytes} {fs : FileSystem} {s : System}
    → (r : Reach path fs s) → ShortNames r
    → (i j : ℕ) (x y : Session) → s.session i ≡ some x
    → s.session j ≡ some y
    → same_sentence x y ≡ true
    → i ≡ j
mutual_exclusion r short i j x y at_i at_j e = (Reach-Inv r short).apart i j x y at_i at_j e

-- A thread waits in a WRITE session on that sentence.
unfoldable pub HasSession : System → Bytes → ℤ → Type 0
HasSession s f n =
    (i : ℕ) × (x : Session) × (s.session i ≡ some x) × (same x.filename x.sent_num f n ≡ true)

-- In every state that is reached without a WRITE on a name of more than 255 bytes, where the start of
-- a WRITE and its commit are one step each, a sentence lock is taken exactly if a thread has a session
-- on its sentence: no lock is left behind, and none is lost.
pub locked_iff_session :
    {path : Bytes} {fs : FileSystem} {s : System}
    → (r : Reach path fs s) → ShortNames r
    → (f : Bytes) (n : ℤ) → (locked s.server f n ≡ true) ↔ HasSession s f n
unfolding HasSession
locked_iff_session {s} r short f n = (
  (Reach-Inv r short).owned f n,
  λ w.
      let (i, x, at_i, e) = w in
      ground (
        arith,
        (Reach-Inv r short).held i x at_i,
        str_eq_iff x.filename f,
        int_eq_iff x.sent_num n,
      ),
)
