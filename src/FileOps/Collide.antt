-- ===== src/FileOps/Collide.antt =====
-- The sentence number that is locked and the sentence that a commit changes, in
-- storage_server/file_ops.c: the lock is on the number which the client gave, the change is made at
-- that number and the shift since the session began.
use distributed_concurrent_f.Prelude.{
  ◌≤◌, true, false, List, sym, arith, int_eq, negsuc, [], ◌∷◌, ◌≡◌, ◌∙◌, Bytes, ℤ, pos, ◌+ℤ◌,
  +ℤ_zero, zero_+ℤ, length, max_name, int_lt, str_eq_refl,
}
use distributed_concurrent_f.StorageServer.{
  StorageServer, log_modification, get_sentence_shift, get_current_log_id,
}
use distributed_concurrent_f.StorageServer.Log.{
  IsLog, log_modification-IsLog, log_all, total_shift, shift_of_session,
}
use distributed_concurrent_f.FileOps.{Session, Update, real_sent_num, write_commit}
use distributed_concurrent_f.FileOps.Write.{Fits}
use distributed_concurrent_f.StorageServer.Locks.{same, unique_locks}
use distributed_concurrent_f.UndoHandler.{FileSystem}
use distributed_concurrent_f.FileOps.Commit.{updated, write_commit_lem}

-- The server after a commit that put `d` sentences behind sentence `m`, and a session that begins now.
abbrev pub after_commit : StorageServer → Bytes → ℤ → ℤ → StorageServer
after_commit ss f m d = log_modification ss f m d

abbrev pub session_now : StorageServer → Bytes → ℤ → Session
session_now ss f n = record { filename = f; sent_num = n; start_log_id = get_current_log_id ss }

shift_old :
    (ss : StorageServer) (f : Bytes) (n m d : ℤ)
    → IsLog ss
    → length f ≤ max_name
    → int_lt m n ≡ true
    → get_sentence_shift (after_commit ss f m d) f n (get_current_log_id ss) ≡ d
unfolding log_all total_shift
shift_old ss f n m d logged short before =
    shift_of_session ss (record { filename = f; index = m; delta = d } ∷ []) f n logged (short, tt)
    ∙ rw (str_eq_refl f, before) (zero_+ℤ d)

shift_new :
    (ss : StorageServer) (f : Bytes) (n : ℤ)
    → IsLog ss
    → get_sentence_shift ss f n (get_current_log_id ss) ≡ pos 0
unfolding log_all total_shift
shift_new ss f n logged = shift_of_session ss [] f n logged tt

same_real_sentence :
    (ss : StorageServer) (f : Bytes) (n m d : ℤ)
    → IsLog ss
    → length f ≤ max_name
    → int_lt m n ≡ true
    → real_sent_num (after_commit ss f m d) (session_now ss f n)
      ≡ real_sent_num (after_commit ss f m d) (session_now (after_commit ss f m d) f (n +ℤ d))
unfolding real_sent_num
same_real_sentence ss f n m d logged short before = rw (
  shift_old ss f n m d logged short before,
  shift_new (after_commit ss f m d) f (n +ℤ d) (log_modification-IsLog ss f m d logged),
  +ℤ_zero,
)

shifted_ne : (n d : ℤ) → int_eq d (pos 0) ≡ false → int_eq n (n +ℤ d) ≡ false
unfolding ◌+ℤ◌ int_eq
shifted_ne (pos n) (pos d) h = ground (arith, h)
shifted_ne (pos n) (negsuc d) h = ground (arith, h)
shifted_ne (negsuc n) (pos d) h = ground (arith, h)
shifted_ne (negsuc n) (negsuc d) h = ground (arith, h)

-- A session on sentence `n` that begins before a commit which puts `d` sentences behind one further
-- up, and a session on sentence `n + d` that begins after it, have different locks, if `d` is not 0;
-- and yet whatever updates they commit, each changes what the other would: the files are the same
-- after a commit of the one as after that of the other. The log is well formed, no lock is held
-- twice, and the name and the paths of the file are not cut.
pub one_sentence_twice :
    (ss : StorageServer) (fs : FileSystem) (f q : Bytes) (n m d : ℤ) (updates : List Update)
    → IsLog ss
    → Fits ss f
    → unique_locks ss.sentence_locks ≡ true
    → length f ≤ max_name
    → int_lt m n ≡ true
    → int_eq d (pos 0) ≡ false
    → (same f n f (n +ℤ d) ≡ false)
      × ((write_commit (after_commit ss f m d) fs (session_now ss f n) updates).files.files q
          ≡ (write_commit
                (after_commit ss f m d)
                fs
                (session_now (after_commit ss f m d) f (n +ℤ d))
                updates).files.files
              q)
unfolding updated
one_sentence_twice ss fs f q n m d updates logged fits unique short before moved =
    let ss' = after_commit ss f m d in
    let fits' : Fits ss' f = unfold log_modification in ground (arith, fits) in
    let unique' : unique_locks ss'.sentence_locks ≡ true =
      unfold log_modification in ground (arith, unique) in
    let one = write_commit_lem ss' fs (session_now ss f n) updates fits' unique' in
    let two = write_commit_lem ss' fs (session_now ss' f (n +ℤ d)) updates fits' unique' in
    (
      ground (arith, shifted_ne n d moved),
      one.files q ∙ rw (same_real_sentence ss f n m d logged short before) (sym (two.files q)),
    )
