-- ===== src/StorageServer/Locks.antt =====
-- The sentence locks of storage_server/storage_server.c.
use distributed_concurrent_f.Prelude.{
  ◌≤◌, Bool, true, not, ◌&&◌, ◌||◌, List, [], ◌∷◌, ◌≡◌, refl, arith, Bytes, ℤ, length, max_name,
  copy_name_short, str_eq, str_eq_iff, int_eq, int_eq_iff,
}
use distributed_concurrent_f.StorageServer.{
  SentenceLockNode, StorageServer, is_lock, is_locked, try_lock_sentence, remove_lock,
  unlock_sentence,
}

-- The lock on a sentence is taken.
abbrev pub locked : StorageServer → Bytes → ℤ → Bool
locked ss f n = is_locked ss.sentence_locks f n

-- Both name the same sentence of the same file.
abbrev pub same : Bytes → ℤ → Bytes → ℤ → Bool
same f n g k = str_eq f g && int_eq n k

-- A lock on a file whose name is not cut is got exactly if it is free. Then it is taken, and no
-- other lock has changed.
pub try_lock_sentence_lem :
    (ss : StorageServer) (f g : Bytes) (n k : ℤ)
    → length f ≤ max_name
    → ((try_lock_sentence ss f n).0 ≡ not (locked ss f n))
      × (locked (try_lock_sentence ss f n).1 g k ≡ (same f n g k || locked ss g k))
unfolding try_lock_sentence is_locked is_lock
try_lock_sentence_lem ss f g n k h =
    ground (arith, copy_name_short f h, str_eq_iff f g, int_eq_iff n k)

unfoldable pub unique_locks : List SentenceLockNode → Bool
unique_locks [] = true
unique_locks (n ∷ l) = not (is_locked l n.filename n.sentence_num) && unique_locks l

is_locked-remove :
    (l : List SentenceLockNode) (f g : Bytes) (n k : ℤ)
    → unique_locks l ≡ true
    → is_locked (remove_lock l f n) g k ≡ (not (same f n g k) && is_locked l g k)
unfolding is_locked remove_lock unique_locks is_lock
is_locked-remove [] f g n k h = ground arith
is_locked-remove (m ∷ l) f g n k h = ground (
  arith,
  is_locked-remove l f g n k,
  str_eq_iff m.filename f,
  str_eq_iff m.filename g,
  str_eq_iff f g,
  int_eq_iff m.sentence_num n,
  int_eq_iff m.sentence_num k,
  int_eq_iff n k,
)

-- Where no lock is held twice, an unlock frees its lock and no other.
pub unlock_sentence_lem :
    (ss : StorageServer) (f g : Bytes) (n k : ℤ)
    → unique_locks ss.sentence_locks ≡ true
    → locked (unlock_sentence ss f n) g k ≡ (not (same f n g k) && locked ss g k)
unfolding unlock_sentence
unlock_sentence_lem ss f g n k h = is_locked-remove ss.sentence_locks f g n k h

pub try_lock_unique :
    (ss : StorageServer) (f : Bytes) (n : ℤ)
    → length f ≤ max_name
    → unique_locks ss.sentence_locks ≡ true
    → unique_locks (try_lock_sentence ss f n).1.sentence_locks ≡ true
unfolding try_lock_sentence unique_locks
try_lock_unique ss f n h u = ground (arith, copy_name_short f h)

remove_unique :
    (l : List SentenceLockNode) (f : Bytes) (n : ℤ)
    → unique_locks l ≡ true
    → unique_locks (remove_lock l f n) ≡ true
unfolding unique_locks remove_lock
remove_unique [] f n h = refl
remove_unique (m ∷ l) f n h =
    ground (arith, remove_unique l f n, is_locked-remove l f m.filename n m.sentence_num)

pub unlock_unique :
    (ss : StorageServer) (f : Bytes) (n : ℤ)
    → unique_locks ss.sentence_locks ≡ true
    → unique_locks (unlock_sentence ss f n).sentence_locks ≡ true
unfolding unlock_sentence
unlock_unique ss f n u = remove_unique ss.sentence_locks f n u
