-- ===== src/Client.antt =====
-- client/client.c and client/client_net.c: the client as a function of what it reads. `nm_messages` are
-- the messages of the name server that are still to be read; when none is left the connection is
-- closed. `typed` is what the calls of `fgets` return. A storage server is known by its
-- address: `reachable` says whether it can be connected to, and `answers` is what it sends to a
-- connection on which the client has sent the given messages. What `printf` and `fprintf` write is kept as text.
pub mod Commands
pub mod Loop
pub mod Main
pub mod Address
pub mod Output
pub mod WriteRead
pub mod Requests
pub mod Session
use mathlib.Core.List.{map}
use distributed_concurrent_f.Prelude.{
  ℕ, zero, suc, ◌+◌, Bool, true, false, not, ◌&&◌, ◌||◌, List, [], ◌∷◌, ◌++◌, Option, none, some,
  Bytes, codes, ℤ, ltb, ◌==◌, str_eq, if◌then◌else◌, length, take, drop, get_or, copy_name,
}
use distributed_concurrent_f.CString.{split_string, trim_newline, atoi}
use distributed_concurrent_f.Decimal.{print_int}
use distributed_concurrent_f.StorageServer.Scan.{starts_with}

pub data Event : Type 0 where
  to_nm : Bytes → Event
  connected : Bytes → ℤ → Event
  to_ss : Bytes → Event
  printed : Bytes → Event
  complained : Bytes → Event  -- on `stderr`

pub record World : Type 0 where
  pub nm_messages : List Bytes
  pub typed : List Bytes
  pub reachable : Bytes → ℤ → Bool
  pub answers : Bytes → ℤ → List Bytes → List Bytes

-- What a command has done; `running` is false after `exit`.
pub record Run : Type 0 where
  pub events : List Event
  pub world : World
  pub running : Bool

abbrev pub newline : Bytes
newline = 10 ∷ []

-- A text in a buffer of 4096 bytes.
abbrev pub buffered : Bytes → Bytes
buffered text = take 4095 text

-- `client_create`
abbrev pub client_create : Bytes → Bytes
client_create user = copy_name user

-- The message of `client_connect_to_nm`.
unfoldable pub init_client : Bytes → Bytes
init_client username = buffered (codes "INIT_CLIENT " ++ username)

-- The address that the name server gave, and whether there is a connection.
pub data Link : Type 0 where
  invalid_address : Link
  unreachable : Link
  linked : Bytes → ℤ → Link

-- The lines up to the connection, the same in the four handlers.
unfoldable pub client_link : World → Bytes → Link
client_link world ss_addr =
    let parts = split_string ss_addr 58 in
    let ip = get_or parts 0 [] in
    let port = atoi (get_or parts 1 []) in
    if not (length parts == 2)
    then invalid_address
    else if world.reachable ip port
    then linked ip port
    else unreachable

abbrev pub invalid_text : Bytes → List Event
invalid_text ss_addr = complained (codes "Invalid SS address from NM: " ++ ss_addr ++ newline) ∷ []

abbrev pub unreachable_text : List Event
unreachable_text = complained (codes "Failed to connect to Storage Server." ++ newline) ∷ []

-- The text of a file, as READ and as STREAM print it: all messages, and a newline.
unfoldable pub fetch : World → Bytes → Bytes → List Event
fetch world ss_addr req = elim (client_link world ss_addr) [
  | invalid_address ↦ invalid_text ss_addr
  | unreachable ↦ unreachable_text
  | linked ip port ↦
      connected ip port
      ∷ to_ss req
      ∷ (map printed (world.answers ip port (req ∷ [])) ++ printed newline ∷ [])
]

unfoldable pub client_handle_read : World → Bytes → Bytes → List Event
unfolding fetch
client_handle_read world ss_addr filename =
    fetch world ss_addr (buffered (codes "READ " ++ filename))

unfoldable pub client_handle_stream : World → Bytes → Bytes → List Event
unfolding fetch
client_handle_stream world ss_addr filename =
    fetch world ss_addr (buffered (codes "STREAM " ++ filename))

abbrev pub print_line : Bytes → Event
print_line text = printed (text ++ newline)

abbrev pub undo_answer : List Bytes → List Event
undo_answer [] = []
undo_answer (buffer ∷ rest) = print_line buffer ∷ []

unfoldable pub client_handle_undo : World → Bytes → Bytes → List Event
client_handle_undo world ss_addr filename =
    let req = buffered (codes "UNDO " ++ filename) in
    elim (client_link world ss_addr) [
      | invalid_address ↦ invalid_text ss_addr
      | unreachable ↦ unreachable_text
      | linked ip port ↦
          connected ip port ∷ to_ss req ∷ undo_answer (world.answers ip port (req ∷ []))
    ]

-- The lines of a WRITE session that are sent, and the input that is left.
pub record Typed : Type 0 where
  pub events : List Event
  pub sent : List Bytes
  pub rest : List Bytes

abbrev pub prompt : Event
prompt = printed (codes "WRITE > ")

abbrev pub skipped_line : Typed → Typed
skipped_line t = record t { events = prompt ∷ t.events }

abbrev pub sent_line : Bytes → Typed → Typed
sent_line line t = record {
  events = prompt ∷ to_ss line ∷ t.events;
  sent = line ∷ t.sent;
  rest = t.rest;
}

unfoldable pub write_loop : List Bytes → Typed
write_loop [] = record { events = prompt ∷ []; sent = []; rest = [] }
write_loop (input ∷ typed) =
    let line = trim_newline input in
    let more = write_loop typed in
    if length line == 0
    then skipped_line more
    else if str_eq line (codes "ETIRW")
    then record { events = prompt ∷ to_ss line ∷ []; sent = line ∷ []; rest = typed }
    else sent_line line more

-- `strncmp(buffer, "202 ACK_WRITE", 13) == 0`
abbrev pub is_ack : Bytes → Bool
is_ack buffer = starts_with (codes "202 ACK_WRITE") buffer

abbrev pub entering : ℤ → Event
entering sent_num = printed (
    codes "Entering WRITE mode for sentence "
    ++ print_int sent_num
    ++ codes ". Type '<word_idx> <content>' or 'ETIRW' to finish."
    ++ newline)

abbrev pub final_answer : List Bytes → List Event
final_answer [] = complained (codes "Failed to get final response from SS." ++ newline) ∷ []
final_answer (buffer ∷ rest) = print_line buffer ∷ []

-- The answers behind the acknowledgement are those to the whole session.
unfoldable pub write_session : World → Bytes → ℤ → ℤ → Bytes → List Event × List Bytes
unfolding write_loop
write_session world ip port sent_num req =
    let typed = write_loop world.typed in
    (
      entering sent_num
          ∷ (typed.events ++ final_answer (drop 1 (world.answers ip port (req ∷ typed.sent)))),
      typed.rest,
    )

unfoldable pub write_linked : World → Bytes → ℤ → ℤ → Bytes → List Event × List Bytes
unfolding write_session
write_linked world ip port sent_num req = elim (world.answers ip port (req ∷ [])) [
  | [] ↦ (complained (codes "SS disconnected or failed to send ACK." ++ newline) ∷ [], world.typed)
  | buffer ∷ rest ↦
      if not (is_ack buffer)
      then (print_line buffer ∷ [], world.typed)
      else write_session world ip port sent_num req
]

unfoldable pub write_over : World → Bytes → Bytes → ℤ → Link → List Event × List Bytes
unfolding write_linked
write_over world ss_addr req sent_num invalid_address = (invalid_text ss_addr, world.typed)
write_over world ss_addr req sent_num unreachable = (unreachable_text, world.typed)
write_over world ss_addr req sent_num (linked ip port) =
    let done = write_linked world ip port sent_num req in
    (connected ip port ∷ to_ss req ∷ done.0, done.1)

-- The events, and the input that is left.
unfoldable pub client_handle_write : World → Bytes → Bytes → ℤ → List Event × List Bytes
unfolding write_over
client_handle_write world ss_addr filename sent_num =
    let req = buffered (codes "WRITE " ++ filename ++ 32 ∷ print_int sent_num) in
    write_over world ss_addr req sent_num (client_link world ss_addr)
