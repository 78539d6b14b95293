-- ===== src/Client/Loop/Ends.antt =====
-- The end of the command loop of client/client.c.
use distributed_concurrent_f.Prelude.{
  ℕ, zero, suc, ◌≤◌, ◌<◌, ◌||◌, List, [], ◌∷◌, ◌++◌, some, Bytes, codes, ℤ, ◌==◌, str_eq, length,
  get_or, drop, ◌≡◌, refl, arith, Bool-cases, inl, inr, List-cases,
}
use distributed_concurrent_f.CString.{trim_newline, split_string, atoi}
use distributed_concurrent_f.Client.{
  Event, World, Link, invalid_address, unreachable, linked, client_link, write_loop, write_session,
  write_linked, write_over, client_handle_write, buffered,
}
use distributed_concurrent_f.Decimal.{print_int}
use distributed_concurrent_f.Client.Commands.{
  recv_message, at_storage, directed, at_file, at_exec, at_nm, execute_words,
  client_parse_and_execute,
}
use distributed_concurrent_f.Client.Loop.{with_typed, shell, client_command_loop}

write_loop_rest : (typed : List Bytes) → length (write_loop typed).rest ≤ length typed
unfolding write_loop
write_loop_rest [] = omega arith
write_loop_rest (input ∷ typed) = ground (arith, write_loop_rest typed)

write_linked_rest :
    (w : World) (ip : Bytes) (port n : ℤ) (req : Bytes)
    → length (write_linked w ip port n req).1 ≤ length w.typed
unfolding write_linked write_session
write_linked_rest w ip port n req = elim (List-cases (w.answers ip port (req ∷ []))) [
  | inl e ↦ rw (write_linked, e) (omega arith)
  | inr (buffer, rest, e) ↦ rw (write_linked, e) (ground (arith, write_loop_rest w.typed))
]

over_rest :
    (w : World) (addr req : Bytes) (n : ℤ) (l : Link)
    → length (write_over w addr req n l).1 ≤ length w.typed
unfolding write_over
over_rest w addr req n invalid_address = omega arith
over_rest w addr req n unreachable = omega arith
over_rest w addr req n (linked ip port) = write_linked_rest w ip port n req

write_rest :
    (w : World) (addr f : Bytes) (n : ℤ)
    → length (client_handle_write w addr f n).1 ≤ length w.typed
unfolding client_handle_write
write_rest w addr f n =
    over_rest w addr (buffered (codes "WRITE " ++ f ++ 32 ∷ print_int n)) n (client_link w addr)

storage_rest :
    (w : World) (args : List Bytes) (addr : Bytes)
    → length (at_storage w args addr).1 ≤ length w.typed
unfolding at_storage
storage_rest w args addr =
    ground (arith, write_rest w addr (get_or args 1 []) (atoi (get_or args 2 [])))

directed_rest :
    (w : World) (args : List Bytes) (m : Bytes) → length (directed w args m).1 ≤ length w.typed
unfolding directed
directed_rest w args m = ground (arith, storage_rest w args (drop 7 m))

file_rest :
    (w : World) (input : Bytes) (args : List Bytes)
    → length (at_file w input args).world.typed ≤ length w.typed
unfolding at_file
file_rest w input args = elim (List-cases w.nm_messages) [
  | inl e ↦ ground (arith, e)
  | inr (m, messages, e) ↦ ground (arith, e, directed_rest w args (recv_message m))
]

nm_rest : (w : World) (input : Bytes) → length (at_nm w input).world.typed ≤ length w.typed
unfolding at_nm
nm_rest w input = elim (List-cases w.nm_messages) [
  | inl e ↦ ground (arith, e)
  | inr (m, messages, e) ↦ ground (arith, e)
]

-- No command puts anything back into the input.
execute_rest :
    (w : World) (input : Bytes)
    → length (client_parse_and_execute w input).world.typed ≤ length w.typed
unfolding client_parse_and_execute execute_words at_exec
execute_rest w input = ground (arith, file_rest w input (split_string input 32), nm_rest w input)

-- The command loop of the client ends: with more rounds than there are lines of input it does not
-- run out of them, and the number of rounds makes no difference to what it does.
pub loop-ends :
    (username : Bytes) (typed : List Bytes) (world : World) (rounds more : ℕ)
    → length typed < rounds
    → length typed < more
    → (events : List Event) × (client_command_loop rounds username world typed ≡ some events)
      × (client_command_loop more username world typed ≡ some events)
unfolding client_command_loop
loop-ends username typed world zero more h k = absurd (omega arith)
loop-ends username typed world (suc rounds) zero h k = absurd (omega arith)
loop-ends username [] world (suc rounds) (suc more) h k = (shell username ∷ [], refl, refl)
loop-ends username (input ∷ typed) world (suc rounds) (suc more) h k =
    let line = trim_newline input in
    let run = client_parse_and_execute (with_typed world typed) line in
    let (skipped, s, s') = loop-ends username typed world rounds more (omega arith) (omega arith) in
    let shorter = execute_rest (with_typed world typed) line in
    let (later, l, l') =
      loop-ends username run.world.typed run.world rounds more (omega (arith, shorter))
        (omega (arith, shorter)) in
    elim (Bool-cases (length line == 0)) [
      | inl e ↦ (shell username ∷ skipped, ground (arith, e, s), ground (arith, e, s'))
      | inr e ↦ elim (Bool-cases (str_eq line (codes "exit") || str_eq line (codes "quit"))) [
        | inl q ↦ (shell username ∷ [], ground (arith, e, q), ground (arith, e, q))
        | inr q ↦ elim (Bool-cases run.running) [
          | inl r ↦ (
            shell username ∷ (run.events ++ later),
            ground (arith, e, q, r, l),
            ground (arith, e, q, r, l'),
          )
          | inr r ↦ (
            shell username ∷ (run.events ++ []),
            ground (arith, e, q, r),
            ground (arith, e, q, r),
          )
        ]
      ]
    ]
