-- ===== src/StorageServer/Log.antt =====
-- The modification log of storage_server/storage_server.c: by how much a session's sentence has moved.
use distributed_concurrent_f.Prelude.{
  ℕ, ◌≤◌, ◌<◌, ◌&&◌, List, [], ◌∷◌, ◌++◌, ◌≡◌, refl, arith, Bytes, ℤ, pos, ◌+ℤ◌, +ℤ_zero, length,
  max_name, copy_name, copy_name_short, str_eq, int_eq, int_lt, int_eq_iff, if◌then◌else◌, All,
  All-append, Bool-cases, inl, inr,
}
use distributed_concurrent_f.StorageServer.{
  ModificationLogNode, StorageServer, log_modification, get_current_log_id, shift_loop,
  get_sentence_shift,
}

-- The arguments of one call of `log_modification`.
pub record Modification : Type 0 where
  pub filename : Bytes
  pub index : ℤ
  pub delta : ℤ

abbrev pub HasShortName : Modification → Type 0
HasShortName m = length m.filename ≤ max_name

-- The calls one after the other.
unfoldable pub log_all : StorageServer → List Modification → StorageServer
log_all ss [] = ss
log_all ss (m ∷ ms) = log_all (log_modification ss m.filename m.index m.delta) ms

-- The sentences that the modifications of one file put in front of sentence `n`.
unfoldable pub total_shift : Bytes → ℤ → ℤ → List Modification → ℤ
total_shift f n acc [] = acc
total_shift f n acc (m ∷ ms) =
    total_shift f n (if str_eq m.filename f && int_lt m.index n then acc +ℤ m.delta else acc) ms

-- Every entry has an id below the next one.
abbrev pub IsLog : StorageServer → Type 0
IsLog ss = All (λ (n : ModificationLogNode). n.id < ss.next_log_id) ss.mod_log

All-weaken :
    (a b : ℕ) (l : List ModificationLogNode)
    → a ≤ b
    → All (λ (n : ModificationLogNode). n.id < a) l
    → All (λ (n : ModificationLogNode). n.id < b) l
All-weaken a b [] le h = tt
All-weaken a b (n ∷ l) le h = (omega (arith, h.0), All-weaken a b l le h.1)

pub log_modification-IsLog :
    (ss : StorageServer) (f : Bytes) (n d : ℤ) → IsLog ss → IsLog (log_modification ss f n d)
unfolding log_modification
log_modification-IsLog ss f n d h = elim (Bool-cases (int_eq d (pos 0))) [
  | inl e ↦ rw (e, log_modification) h
  | inr e ↦
      rw (e, log_modification)
        (All-append _ ss.mod_log _ (All-weaken _ _ ss.mod_log (omega arith) h) (omega arith, tt))
]

shift_loop-append :
    (l m : List ModificationLogNode) (f : Bytes) (n : ℤ) (start : ℕ) (acc : ℤ)
    → shift_loop (l ++ m) f n start acc ≡ shift_loop m f n start (shift_loop l f n start acc)
unfolding shift_loop
shift_loop-append [] m f n start acc = refl
shift_loop-append (x ∷ l) m f n start acc = shift_loop-append l m f n start _

-- Entries from before the session do not count.
pub shift_loop_old :
    (l : List ModificationLogNode) (f : Bytes) (n : ℤ) (start : ℕ) (acc : ℤ)
    → All (λ (x : ModificationLogNode). x.id < start) l
    → shift_loop l f n start acc ≡ acc
unfolding shift_loop
shift_loop_old [] f n start acc h = refl
shift_loop_old (x ∷ l) f n start acc h = ground (arith, h.0, shift_loop_old l f n start acc h.1)

-- What one entry adds to the shift of a session that began before it.
shift-log :
    (ss : StorageServer) (m : Modification) (f : Bytes) (n : ℤ) (start : ℕ)
    → start ≤ ss.next_log_id
    → HasShortName m
    → (get_sentence_shift (log_modification ss m.filename m.index m.delta) f n start ≡ (
        if str_eq m.filename f && int_lt m.index n
        then get_sentence_shift ss f n start +ℤ m.delta
        else get_sentence_shift ss f n start))
      × (start ≤ (log_modification ss m.filename m.index m.delta).next_log_id)
unfolding get_sentence_shift log_modification
shift-log ss m f n start h short = elim (Bool-cases (int_eq m.delta (pos 0))) [
  | inl zero ↦
      ground (arith, int_eq_iff m.delta (pos 0), +ℤ_zero (shift_loop ss.mod_log f n start (pos 0)))
  | inr some ↦ ground (
    arith,
    copy_name_short m.filename short,
    shift_loop-append ss.mod_log
        (record {
          id = ss.next_log_id;
          filename = copy_name m.filename;
          original_sentence_index = m.index;
          sentence_delta = m.delta;
        }
          ∷ [])
        f n start (pos 0),
  )
]

log_all_shift :
    (ss : StorageServer) (ms : List Modification) (f : Bytes) (n : ℤ) (start : ℕ)
    → start ≤ ss.next_log_id
    → All HasShortName ms
    → get_sentence_shift (log_all ss ms) f n start
      ≡ total_shift f n (get_sentence_shift ss f n start) ms
unfolding log_all total_shift
log_all_shift ss [] f n start h short = refl
log_all_shift ss (m ∷ ms) f n start h short =
    let (now, later) = shift-log ss m f n start h short.0 in
    rw (
      log_all_shift (log_modification ss m.filename m.index m.delta) ms f n start later short.1,
      now,
    )

-- For a session that begins now, the shift of its sentence is the sum of the modifications that
-- follow, of its file and in front of its sentence; no earlier entry counts. Every entry of the
-- log has an id below the next one, and the names of the files are not cut.
pub shift_of_session :
    (ss : StorageServer) (ms : List Modification) (f : Bytes) (n : ℤ)
    → IsLog ss
    → All HasShortName ms
    → get_sentence_shift (log_all ss ms) f n (get_current_log_id ss) ≡ total_shift f n (pos 0) ms
unfolding get_current_log_id get_sentence_shift total_shift
shift_of_session ss ms f n h short =
    let start = ss.next_log_id in
    rw (
      log_all_shift ss ms f n start (omega arith) short,
      shift_loop_old ss.mod_log f n start (pos 0) h,
    )
