-- ===== src/Client/Session.antt =====
-- The messages of the client that a server reads as a whole: the lines of a WRITE session on the way to
-- the storage server, and the output of EXEC on the way back from the name server.
use mathlib.Core.List.{map}
use distributed_concurrent_f.Prelude.{
  true, false, ◌||◌, List, [], ◌∷◌, ◌++◌, none, some, Option-cases, Bytes, codes, ◌==◌, str_eq,
  if◌then◌else◌, length, All, ◌≡◌, refl, arith, Bool-cases, inl, inr,
}
use distributed_concurrent_f.CString.{trim_newline}
use distributed_concurrent_f.FileOps.{Update, parse_update, read_updates}
use distributed_concurrent_f.Client.{Event, printed, print_line, write_loop}
use distributed_concurrent_f.Client.Commands.{is_finished, is_error, exec_loop}

-- The lines that are typed before `ETIRW`, but for the empty ones.
unfoldable pub lines_typed : List Bytes → List Bytes
lines_typed [] = []
lines_typed (line ∷ lines) =
    let rest = lines_typed lines in
    if str_eq line (codes "ETIRW") then [] else if length line == 0 then rest else line ∷ rest

-- Those that are updates, parsed.
unfoldable pub updates_of : List Bytes → List Update
updates_of [] = []
updates_of (line ∷ lines) = elim (parse_update line) [
  | none ↦ updates_of lines
  | some u ↦ u ∷ updates_of lines
]

empty_line : (line : Bytes) → (length line == 0) ≡ true → str_eq line (codes "ETIRW") ≡ false
unfolding str_eq
empty_line [] h = refl
empty_line (c ∷ line) h = ground arith

-- The storage server reads the updates that were typed: each line before `ETIRW` that is an update, in
-- order, and nothing of what is typed behind it.
pub read_updates-write_loop :
    (typed : List Bytes)
    → read_updates (write_loop typed).sent ≡ updates_of (lines_typed (map trim_newline typed))
unfolding read_updates write_loop lines_typed updates_of
read_updates-write_loop [] = refl
read_updates-write_loop (input ∷ typed) =
    let line = trim_newline input in
    let rest = read_updates-write_loop typed in
    elim (Bool-cases (length line == 0)) [
      | inl e ↦ ground (arith, e, empty_line line e, rest)
      | inr e ↦ elim (Bool-cases (str_eq line (codes "ETIRW"))) [
        | inl q ↦ ground (arith, e, q)
        | inr q ↦ elim (Option-cases (parse_update line)) [
          | inl p ↦ ground (arith, e, q, p, rest)
          | inr (u, p) ↦ ground (arith, e, q, p, rest)
        ]
      ]
    ]

-- A message of EXEC that the client takes for output.
abbrev pub IsOutput : Bytes → Type 0
IsOutput m = (is_finished m || is_error m) ≡ false

abbrev pub last_event : Bytes → List Event
last_event m = if is_finished m then [] else print_line m ∷ []

-- The client prints the messages of EXEC in front of the first that ends the output, and that one if
-- it is an error; the messages behind it are still to be read.
pub exec_loop-output :
    (output : List Bytes) (m : Bytes) (rest : List Bytes)
    → All IsOutput output
    → (is_finished m || is_error m) ≡ true
    → exec_loop (output ++ m ∷ rest) ≡ (map printed output ++ last_event m, rest)
unfolding exec_loop
exec_loop-output [] m rest h e = ground (arith, e)
exec_loop-output (line ∷ output) m rest h e =
    let more = exec_loop-output output m rest h.1 e in
    let finished : is_finished line ≡ false = ground (arith, h.0) in
    let failed : is_error line ≡ false = ground (arith, h.0) in
    rw (finished, failed, exec_loop) (rw more refl)
