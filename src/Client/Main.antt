-- ===== src/Client/Main.antt =====
-- The start of the client: `main`, `client_run` and `client_connect_to_nm` of client/client.c. `connects`
-- says whether the name server at an address can be connected to; what `perror` prints is left out.
use distributed_concurrent_f.Prelude.{
  ℕ, ◌<◌, Bool, true, false, List, [], ◌∷◌, ◌++◌, Option, some, Bytes, codes, ◌==◌, length,
  if◌then◌else◌, ◌≡◌, refl, ap, arith,
}
use distributed_concurrent_f.CString.{trim_newline}
use distributed_concurrent_f.Client.{
  Event, to_nm, printed, complained, World, client_create, init_client,
}
use distributed_concurrent_f.Client.Loop.{before, client_command_loop}
use distributed_concurrent_f.Client.Loop.Ends.{loop-ends}

unfoldable pub client_connect_to_nm : Bytes → List Event
client_connect_to_nm username =
    to_nm (init_client username)
    ∷ printed (codes "Connected to Name Server as '" ++ username ++ codes "'.\n")
    ∷ []

unfoldable pub client_run :
    (Bytes → Bool) → ℕ → Bytes → Bytes → World → List Bytes → Option (List Event)
unfolding client_connect_to_nm
client_run connects rounds username nm_ip world typed =
    if connects nm_ip
    then before (client_connect_to_nm username) (client_command_loop rounds username world typed)
    else some (
        complained (codes "Failed to connect to Name Server at " ++ nm_ip ++ codes ":8000.\n") ∷ [])

abbrev pub main_usage : List Event
main_usage =
    complained (codes "Usage: ./bin/client <name_server_ip>\n")
    ∷ complained (codes "       (Use 127.0.0.1 if running locally)\n")
    ∷ []

abbrev pub name_prompt : Event
name_prompt = printed (codes "Enter your username: ")

-- Behind the first line that is typed.
unfoldable pub with_username :
    (Bytes → Bool) → ℕ → Bytes → Bytes → World → List Bytes → Option (List Event)
unfolding client_run
with_username connects rounds username nm_ip world typed =
    if length username == 0
    then some (name_prompt ∷ complained (codes "Username cannot be empty.\n") ∷ [])
    else before (name_prompt ∷ [])
        (client_run connects rounds (client_create username) nm_ip world typed)

-- `args` are those of the program without its name; the name of the user is the first line typed.
unfoldable pub client_main :
    (Bytes → Bool) → ℕ → List Bytes → World → List Bytes → Option (List Event)
unfolding with_username
client_main connects rounds [] world typed = some main_usage
client_main connects rounds (nm_ip ∷ a ∷ args) world typed = some main_usage
client_main connects rounds (nm_ip ∷ []) world [] = some (name_prompt ∷ [])
client_main connects rounds (nm_ip ∷ []) world (line ∷ typed) =
    with_username connects rounds (trim_newline line) nm_ip world typed

-- Two runs give the same events.
abbrev Agree : Option (List Event) → Option (List Event) → Type 0
Agree x y = (events : List Event) × (x ≡ some events) × (y ≡ some events)

before-Agree :
    (first : List Event) (x y : Option (List Event))
    → Agree x y
    → Agree (before first x) (before first y)
before-Agree first x y (events, e, k) = (first ++ events, ap (before first) e, ap (before first) k)

if-Agree :
    (b : Bool) (x y x' y' : Option (List Event))
    → Agree x y
    → Agree x' y'
    → Agree (if b then x else x') (if b then y else y')
if-Agree true x y x' y' h k = h
if-Agree false x y x' y' h k = k

abbrev same : (x : List Event) → Agree (some x) (some x)
same x = (x, refl, refl)

-- Where every server answers or closes, with answers that come to an end: the client ends, however it is
-- started and whatever is typed. With more rounds of the command loop than there are lines of input it
-- does not run out of them, and the number of rounds makes no difference to what it does.
pub main-ends :
    (connects : Bytes → Bool) (args typed : List Bytes) (world : World) (rounds more : ℕ)
    → length typed < rounds
    → length typed < more
    → (events : List Event) × (client_main connects rounds args world typed ≡ some events)
      × (client_main connects more args world typed ≡ some events)
unfolding client_main with_username client_run
main-ends connects [] typed world rounds more h k = same main_usage
main-ends connects (nm_ip ∷ a ∷ args) typed world rounds more h k = same main_usage
main-ends connects (nm_ip ∷ []) [] world rounds more h k = same (name_prompt ∷ [])
main-ends connects (nm_ip ∷ []) (line ∷ typed) world rounds more h k =
    let user = client_create (trim_newline line) in
    if-Agree (length (trim_newline line) == 0) _ _ _ _ (same _) (
      before-Agree (name_prompt ∷ []) _ _ (
        if-Agree (connects nm_ip) _ _ _ _
          (before-Agree (client_connect_to_nm user) _ _
            (loop-ends user typed world rounds more (omega arith) (omega arith)))
          (same _)))
