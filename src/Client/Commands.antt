-- ===== src/Client/Commands.antt =====
-- The commands of client/client.c: `client_parse_and_execute` and `client_command_loop`.
use distributed_concurrent_f.Prelude.{
  Bool, true, false, ◌||◌, List, [], ◌∷◌, ◌++◌, Bytes, codes, ltb, ◌==◌, str_eq, if◌then◌else◌,
  length, drop, take, get_or,
}
use distributed_concurrent_f.CString.{split_string, atoi}
use distributed_concurrent_f.StorageServer.Scan.{starts_with}
use distributed_concurrent_f.Client.{
  Event, to_nm, printed, complained, World, Run, newline, print_line, client_handle_read,
  client_handle_stream, client_handle_write, client_handle_undo,
}

-- One call of `recv_message` gets at most 4095 bytes of a message; the rest of it is read next.
unfoldable pub recv_message : Bytes → Bytes
recv_message message = take 4095 message

unfoldable pub left_over : Bytes → List Bytes → List Bytes
left_over message messages =
    if ltb 4095 (length message) then drop 4095 message ∷ messages else messages

abbrev pub disconnected : World → Bytes → Run
disconnected world input = record {
  events = to_nm input ∷ complained (codes "Name Server disconnected." ++ newline) ∷ [];
  world = world;
  running = false;
}

-- The handler of the command, with the address that starts behind `202 OK `.
unfoldable pub at_storage : World → List Bytes → Bytes → List Event × List Bytes
at_storage world args ss_addr =
    let cmd = get_or args 0 [] in
    let filename = get_or args 1 [] in
    if str_eq cmd (codes "READ")
    then (client_handle_read world ss_addr filename, world.typed)
    else if str_eq cmd (codes "STREAM")
    then (client_handle_stream world ss_addr filename, world.typed)
    else if str_eq cmd (codes "WRITE")
    then if ltb (length args) 3
      then (print_line (codes "Usage: WRITE <filename> <sentence_number>") ∷ [], world.typed)
      else client_handle_write world ss_addr filename (atoi (get_or args 2 []))
    else if str_eq cmd (codes "UNDO")
    then (client_handle_undo world ss_addr filename, world.typed)
    else ([], world.typed)

abbrev pub after_answer : World → Bytes → List Bytes → List Event × List Bytes → Run
after_answer world input messages done = record {
  events = to_nm input ∷ done.0;
  world = record world { nm_messages = messages; typed = done.1 };
  running = true;
}

-- `strncmp(nm_response, "202 OK", 6) == 0`
unfoldable pub directed : World → List Bytes → Bytes → List Event × List Bytes
unfolding at_storage
directed world args nm_response =
    if starts_with (codes "202 OK") nm_response
    then at_storage world args (drop 7 nm_response)
    else (print_line nm_response ∷ [], world.typed)

unfoldable pub at_file : World → Bytes → List Bytes → Run
unfolding directed
at_file world input args =
    if ltb (length args) 2
    then record {
      events =
          print_line (codes "Usage: " ++ get_or args 0 [] ++ codes " <filename> [args...]") ∷ [];
      world = world;
      running = true;
    }
    else elim world.nm_messages [
      | [] ↦ disconnected world input
      | message ∷ messages ↦
          after_answer world input (left_over message messages)
            (directed world args (recv_message message))
    ]

unfoldable pub is_finished : Bytes → Bool
is_finished nm_response = starts_with (codes "201 OK: Execution finished.") nm_response

-- The answers that `client_parse_and_execute` takes for an error of EXEC.
unfoldable pub is_error : Bytes → Bool
is_error nm_response =
    starts_with (codes "400") nm_response
    || (starts_with (codes "401") nm_response
        || (starts_with (codes "404") nm_response
            || (starts_with (codes "500") nm_response || starts_with (codes "503") nm_response)))

-- The loop over the output of EXEC, and the messages that are left. EXEC sends none of more than 1022
-- bytes, so that each is received whole.
unfoldable pub exec_loop : List Bytes → List Event × List Bytes
unfolding is_finished is_error
exec_loop [] = ([], [])
exec_loop (nm_response ∷ messages) =
    let more = exec_loop messages in
    if is_finished nm_response
    then ([], messages)
    else if is_error nm_response
    then (print_line nm_response ∷ [], messages)
    else (printed nm_response ∷ more.0, more.1)

unfoldable pub at_exec : World → Bytes → Run
unfolding exec_loop
at_exec world input =
    let done = exec_loop world.nm_messages in
    record {
      events = to_nm input ∷ done.0;
      world = record world { nm_messages = done.1 };
      running = true;
    }

-- Any other command is answered by one message.
unfoldable pub at_nm : World → Bytes → Run
at_nm world input = elim world.nm_messages [
  | [] ↦ disconnected world input
  | message ∷ messages ↦
      after_answer world input (left_over message messages)
        (print_line (recv_message message) ∷ [], world.typed)
]

-- The branches, on the words of the input.
unfoldable pub execute_words : World → Bytes → List Bytes → Run
unfolding at_file at_exec at_nm
execute_words world input args =
    let cmd = get_or args 0 [] in
    if length args == 0
    then record { events = []; world = world; running = true }
    else if str_eq cmd (codes "READ")
        || (str_eq cmd (codes "STREAM")
            || (str_eq cmd (codes "WRITE") || str_eq cmd (codes "UNDO")))
    then at_file world input args
    else if str_eq cmd (codes "EXEC")
    then at_exec world input
    else at_nm world input

unfoldable pub client_parse_and_execute : World → Bytes → Run
unfolding execute_words
client_parse_and_execute world input = execute_words world input (split_string input 32)
