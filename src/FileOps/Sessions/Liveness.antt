-- ===== src/FileOps/Sessions/Liveness.antt =====
-- How the threads of storage_server/file_ops.c come to their end: a session that waits for its client
-- ends when the client sends `ETIRW` or goes away, which is a `commit` step.
use distributed_concurrent_f.Prelude.{
  ℕ, zero, suc, ◌+◌, ◌≤◌, false, [], ◌≡◌, ◌∙◌, refl, ap, arith, Bytes, ℤ, none, Option-cases, ◌==◌,
  Bool-cases, inl, inr,
}
use distributed_concurrent_f.StorageServer.Locks.{locked}
use distributed_concurrent_f.UndoHandler.{FileSystem}
use distributed_concurrent_f.FileOps.{write_commit}
use distributed_concurrent_f.FileOps.Sessions.{
  System, update, Step, begin, commit, undo, nm_command, Reach, here, next, ShortNames,
}
use distributed_concurrent_f.FileOps.Sessions.Invariant.{Inv, Step-Inv, Reach-Inv}

-- A sequence of steps.
pub data Steps : System → System → Type 0 where
  stop : {s : System} → Steps s s
  step : {s t u : System} → Step s t → Steps t u → Steps s u

-- Only threads below `n` wait in a session.
abbrev Below : ℕ → System → Type 0
Below n s = (i : ℕ) → n ≤ i → s.session i ≡ none

-- The number of a thread that has begun anything is bounded.
Reach-Below : {path : Bytes} {fs : FileSystem} {s : System} → Reach path fs s → (n : ℕ) × Below n s
Reach-Below here = (0, λ i h. refl)
Reach-Below {s} (next r (begin i f k idle e)) =
    let (n, h) = Reach-Below r in
    (n + (i + 1), λ j low. ap (λ (t : System). t.session j) e ∙ ground (arith, h j))
Reach-Below (next r (commit i x updates busy e)) =
    let (n, h) = Reach-Below r in
    (n, λ j low. ap (λ (t : System). t.session j) e ∙ ground (arith, h j))
Reach-Below (next r (undo f e)) =
    let (n, h) = Reach-Below r in (n, λ j low. ap (λ (t : System). t.session j) e ∙ h j low)
Reach-Below (next r (nm_command buffer e)) =
    let (n, h) = Reach-Below r in (n, λ j low. ap (λ (t : System). t.session j) e ∙ h j low)

-- The clients of the threads go away in turn.
drain_from :
    (n : ℕ) (s : System)
    → Below n s
    → Inv s
    → (t : System) × Steps s t × ((i : ℕ) → t.session i ≡ none) × Inv t
drain_from zero s h inv = (s, stop, λ i. h i (omega arith), inv)
drain_from (suc n) s h inv = elim (Option-cases (s.session n)) [
  | inl idle ↦
      drain_from n s
        (λ i low. elim (Bool-cases (i == n)) [
          | inl at ↦ let e : i ≡ n = ground arith in rw e idle
          | inr above ↦ h i (ground arith)
        ])
        inv
  | inr (x, busy) ↦
      let s' : System = record {
        server = (write_commit s.server s.files x []).server;
        files = (write_commit s.server s.files x []).files;
        session = update s.session n none;
      } in
      let ends : Step s s' = commit n x [] busy refl in
      let (t, more, done, kept) =
        drain_from n s' (λ i low. ground (arith, h i)) (Step-Inv ends tt inv) in
      (t, step ends more, done, kept)
]

no_lock :
    {t : System}
    → Inv t
    → ((i : ℕ) → t.session i ≡ none)
    → (f : Bytes) (n : ℤ) → locked t.server f n ≡ false
no_lock {t} inv idle f n = elim (Bool-cases (locked t.server f n)) [
  | inl held ↦ let (i, x, at_i, e) = inv.owned f n held in let none_here = idle i in absurd cc
  | inr free ↦ free
]

-- From every state that is reached without a WRITE on a name of more than 255 bytes, where the start of
-- a WRITE and its commit are one step each, some sequence of steps leads to a state in which no thread
-- waits in a WRITE session and no sentence lock of any file is held.
pub all_locks_end :
    {path : Bytes} {fs : FileSystem} {s : System} (r : Reach path fs s)
    → ShortNames r
    → (t : System) × Steps s t
      × ((i : ℕ) → t.session i ≡ none)
      × ((f : Bytes) (n : ℤ) → locked t.server f n ≡ false)
all_locks_end {s} r short =
    let (n, below) = Reach-Below r in
    let (t, steps, idle, inv) = drain_from n s below (Reach-Inv r short) in
    (t, steps, idle, no_lock inv idle)
