-- ===== src/Client/Loop.antt =====
-- `client_command_loop` of client/client.c. Each round reads a line, so a round for each line that is
-- there and one for the end of the input are enough.
pub mod Ends
use distributed_concurrent_f.Prelude.{
  ℕ, zero, suc, ◌+◌, ◌≤◌, ◌<◌, Bool, true, false, not, ◌&&◌, ◌||◌, List, [], ◌∷◌, ◌++◌, Option,
  none, some, Option-cases, Bytes, codes, ltb, ◌==◌, str_eq, if◌then◌else◌, length, ◌≡◌, ◌∙◌, refl,
  ap, arith, Bool-cases, inl, inr, List-cases,
}
use distributed_concurrent_f.CString.{trim_newline, split_string}
use distributed_concurrent_f.Client.{Event, printed, World, Run}
use distributed_concurrent_f.Client.Commands.{client_parse_and_execute}

abbrev pub with_typed : World → List Bytes → World
with_typed world typed = record world { typed = typed }

abbrev pub shell : Bytes → Event
shell username = printed (codes "LangOS (" ++ username ++ codes ") > ")

abbrev pub before : List Event → Option (List Event) → Option (List Event)
before events none = none
before events (some more) = some (events ++ more)

-- `none` is the end of the rounds. `typed` is what is left of the input.
unfoldable pub client_command_loop : ℕ → Bytes → World → List Bytes → Option (List Event)
client_command_loop zero username world typed = none
client_command_loop (suc rounds) username world [] = some (shell username ∷ [])
client_command_loop (suc rounds) username world (input ∷ typed) =
    let input_buffer = trim_newline input in
    let run = client_parse_and_execute (with_typed world typed) input_buffer in
    let skipped = client_command_loop rounds username world typed in
    let more = client_command_loop rounds username run.world run.world.typed in
    before (shell username ∷ []) (
      if length input_buffer == 0
      then skipped
      else if str_eq input_buffer (codes "exit") || str_eq input_buffer (codes "quit")
      then some []
      else before run.events (if run.running then more else some []))
