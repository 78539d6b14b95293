-- ===== src/FileOps/Write.antt =====
-- A write session of storage_server/file_ops.c: what starts one, and what its commit does to the
-- files and the locks.
use distributed_concurrent_f.Prelude.{
  ◌+◌, ◌≤◌, Bool, true, false, not, ◌&&◌, ◌||◌, ◌++◌, ◌≡◌, ◌∙◌, sym, ap, arith, Bytes, codes, ℤ,
  none, some, Bool-cases, inl, inr, length, length-append, take_all, max_name, str_eq, str_eq_iff,
  str_eq→eq, int_eq_iff, if◌then◌else◌,
}
use distributed_concurrent_f.StorageServer.{StorageServer, get_current_log_id, try_lock_sentence}
use distributed_concurrent_f.StorageServer.Locks.{
  locked, same, unique_locks, try_lock_sentence_lem, unlock_sentence_lem, try_lock_unique,
  unlock_unique,
}
use distributed_concurrent_f.UndoHandler.{FileSystem}
use distributed_concurrent_f.FileOps.Range.{admits, out_of_range-eq}
use distributed_concurrent_f.FileOps.{
  ack_write, bad_index, sentence_locked, file_path, undo_path, or_empty, max_valid_index,
  out_of_range, Begun, write_begin,
}

-- The paths of the file and of its backup are not cut off.
abbrev pub Fits : StorageServer → Bytes → Type 0
Fits ss f = length ss.storage_path + length f + 6 ≤ 1023

pub path_length :
    (ss : StorageServer) (f : Bytes)
    → length (ss.storage_path ++ codes "/" ++ f) ≡ length ss.storage_path + 1 + length f
path_length ss f = omega (
  arith,
  length-append (ss.storage_path ++ codes "/") f,
  length-append ss.storage_path (codes "/"),
)

pub paths_ne :
    (ss : StorageServer) (f : Bytes) → Fits ss f → str_eq (file_path ss f) (undo_path ss f) ≡ false
unfolding file_path undo_path
paths_ne ss f h = elim (Bool-cases (str_eq (file_path ss f) (undo_path ss f))) [
  | inr e ↦ e
  | inl e ↦
      let a = ss.storage_path ++ codes "/" ++ f in
      let n : length a ≡ length ss.storage_path + 1 + length f = path_length ss f in
      let m : length (a ++ codes ".undo") ≡ length a + 5 =
        omega (arith, length-append a (codes ".undo")) in
      let eq : a ≡ a ++ codes ".undo" =
        sym (take_all 1023 a (omega arith))
        ∙ (str_eq→eq _ _ e ∙ take_all 1023 (a ++ codes ".undo") (omega arith)) in
      absurd (omega (arith, ap length eq))
]

-- A session may start: its sentence is free, and its index is at most the number of delimiters of the
-- text of the file.
abbrev pub starts : StorageServer → FileSystem → Bytes → ℤ → Bool
starts ss fs f n = not (locked ss f n) && admits (or_empty (fs.files (file_path ss f))) n

-- The reply and the session of a WRITE request, and the locks that it leaves.
pub record BeginsWrite (ss : StorageServer) (fs : FileSystem) (f : Bytes) (n : ℤ) (b : Begun)
    : Type 0 where
  pub reply : b.reply ≡ (
      if starts ss fs f n then ack_write else if locked ss f n then sentence_locked else bad_index)
  pub session : b.session ≡ (
      if starts ss fs f n
      then some (record { filename = f; sent_num = n; start_log_id = ss.next_log_id })
      else none)
  pub locks :
      (g : Bytes) (k : ℤ)
      → locked b.server g k ≡ ((starts ss fs f n && same f n g k) || locked ss g k)

begin_locks :
    (ss : StorageServer) (fs : FileSystem) (f g : Bytes) (n k : ℤ)
    → length f ≤ max_name
    → unique_locks ss.sentence_locks ≡ true
    → locked (write_begin ss fs f n).server g k
      ≡ ((starts ss fs f n && same f n g k) || locked ss g k)
unfolding write_begin
begin_locks ss fs f g n k h u =
    let ss' = (try_lock_sentence ss f n).1 in
    let text = or_empty (fs.files (file_path ss f)) in
    let max = max_valid_index text in
    let range = out_of_range-eq text n in
    let got = try_lock_sentence_lem ss f g n k h in
    let freed = unlock_sentence_lem ss' f g n k (try_lock_unique ss f n h u) in
    elim (Bool-cases (locked ss f n)) [
      | inl taken ↦ rw (taken, got.0, taken) (ground (arith, got, str_eq_iff f g, int_eq_iff n k))
      | inr free ↦ elim (Bool-cases (out_of_range n max)) [
        | inl out ↦
            rw (free, ← range, out, got.0, free)
              (ground (arith, got, freed, str_eq_iff f g, int_eq_iff n k))
        | inr within ↦ rw (free, ← range, within, got.0, free) (ground (arith, got))
      ]
    ]

-- For a WRITE on a file whose name is not cut, where no lock is held twice, the reply, the session
-- and the locks are as `BeginsWrite` says on each branch: a session starts exactly if its lock is free
-- and its index is not negative and at most the number of delimiters in the text of the file, and
-- only then a lock is taken.
pub write_begin_lem :
    (ss : StorageServer) (fs : FileSystem) (f : Bytes) (n : ℤ)
    → length f ≤ max_name
    → unique_locks ss.sentence_locks ≡ true
    → BeginsWrite ss fs f n (write_begin ss fs f n)
unfolding write_begin get_current_log_id
write_begin_lem ss fs f n h u =
    let got = try_lock_sentence_lem ss f f n n h in
    let range = out_of_range-eq (or_empty (fs.files (file_path ss f))) n in
    record {
      reply = ground (arith, got, range);
      session = ground (arith, got, range);
      locks = λ g k. begin_locks ss fs f g n k h u;
    }

-- No lock is taken twice.
pub write_begin_unique :
    (ss : StorageServer) (fs : FileSystem) (f : Bytes) (n : ℤ)
    → length f ≤ max_name
    → unique_locks ss.sentence_locks ≡ true
    → unique_locks (write_begin ss fs f n).server.sentence_locks ≡ true
unfolding write_begin
write_begin_unique ss fs f n h u =
    let ss' = (try_lock_sentence ss f n).1 in
    ground (arith, try_lock_unique ss f n h u, unlock_unique ss' f n (try_lock_unique ss f n h u))
