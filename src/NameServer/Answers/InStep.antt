-- ===== src/NameServer/Answers/InStep.antt =====
-- The client and the name server stay in step, over client/client.c and name_server/client_handler.c: the
-- answers to a command are what the client reads for it.
use distributed_concurrent_f.Prelude.{
  ◌++◌, [], drop, if◌then◌else◌, ℕ, true, false, ◌||◌, List, ◌∷◌, Bytes, codes, str_eq, ltb, length,
  ◌==◌, Bool, ◌&&◌, ◌≡◌, ◌∙◌, refl, ap, arith, Bool-cases, inl, inr,
}
use distributed_concurrent_f.CString.{split_string}
use distributed_concurrent_f.NameServer.{NameServer}
use distributed_concurrent_f.NameServer.Commands.{Outside, nm_command}
use distributed_concurrent_f.NameServer.Exec.Shown.{IsPlain, trim_plain}
use distributed_concurrent_f.NameServer.Texts.{Clock, message_text}
use distributed_concurrent_f.NameServer.Answers.{Answers}
use distributed_concurrent_f.NameServer.Answers.Commands.{nm_command-Answers}
use distributed_concurrent_f.Client.{World, Run}
use distributed_concurrent_f.Client.Commands.{
  client_parse_and_execute, execute_words, at_file, at_nm, left_over,
}

-- A world in which the messages of the name server are these.
abbrev pub hears : World → List Bytes → World
hears world messages = record world { nm_messages = messages }

-- The command has read one message, and the client goes on.
abbrev pub HasRead : List Bytes → Run → Type 0
HasRead rest run = (run.world.nm_messages ≡ rest) × (run.running ≡ true)

-- The commands that the client does not send without a file name.
abbrev pub needs_file : Bytes → Bool
needs_file cmd =
    str_eq cmd (codes "READ")
    || (str_eq cmd (codes "STREAM") || (str_eq cmd (codes "WRITE") || str_eq cmd (codes "UNDO")))

at_file-reads :
    (world : World) (input text cmd : Bytes) (args rest : List Bytes)
    → (length args == 0) ≡ false
    → HasRead (left_over text rest) (at_file (hears world (text ∷ rest)) input (cmd ∷ args))
unfolding at_file
at_file-reads world input text cmd args rest named =
    let enough : ltb (length (cmd ∷ args)) 2 ≡ false = ground (arith, named) in
    rw (enough, at_file) (refl, refl)

words-reads :
    (world : World) (input text cmd : Bytes) (args rest : List Bytes)
    → str_eq cmd (codes "EXEC") ≡ false
    → (needs_file cmd && length args == 0) ≡ false
    → HasRead (left_over text rest) (execute_words (hears world (text ∷ rest)) input (cmd ∷ args))
unfolding execute_words at_nm
words-reads world input text cmd args rest other named =
    let some_words : (length (cmd ∷ args) == 0) ≡ false = ground arith in
    elim (Bool-cases (needs_file cmd)) [
      | inl file ↦
          let arg : (length args == 0) ≡ false = ground (arith, file, named) in
          rw (some_words, file, execute_words) (at_file-reads world input text cmd args rest arg)
      | inr plain ↦ rw (some_words, plain, other, execute_words) (refl, refl)
    ]

input_reads :
    (world : World) (input text cmd : Bytes) (args rest : List Bytes)
    → split_string input 32 ≡ cmd ∷ args
    → str_eq cmd (codes "EXEC") ≡ false
    → (needs_file cmd && length args == 0) ≡ false
    → HasRead (left_over text rest) (client_parse_and_execute (hears world (text ∷ rest)) input)
unfolding client_parse_and_execute
input_reads world input text cmd args rest words other named =
    rw words (words-reads world input text cmd args rest other named)

-- What one call of `recv_message` leaves of a message: the bytes behind the first 4095.
abbrev pub unread : Bytes → List Bytes
unread text = if ltb 4095 (length text) then drop 4095 text ∷ [] else []

left_over-unread : (text : Bytes) (rest : List Bytes) → left_over text rest ≡ unread text ++ rest
unfolding left_over
left_over-unread text rest = elim (Bool-cases (ltb 4095 (length text))) [
  | inl long ↦ rw long refl
  | inr short ↦ rw short refl
]

-- A line with a command other than EXEC that the client sends is answered by one message. Whatever the
-- answer is, the client reads at most the first 4095 bytes of it, and goes on. If it is longer, the
-- rest of it is read for the next command; if not, the answers to the next commands come next.
pub in_step :
    (nm : NameServer) (sock : ℕ) (user input cmd : Bytes) (args : List Bytes) (outside : Outside)
    (clock : Clock) (world : World) (rest : List Bytes)
    → IsPlain input
    → split_string input 32 ≡ cmd ∷ args
    → str_eq cmd (codes "EXEC") ≡ false
    → (needs_file cmd && length args == 0) ≡ false
    → (a : Answers sock nm (nm_command nm sock user input outside)) × HasRead
        (unread (message_text clock a.answer) ++ rest)
        (client_parse_and_execute (hears world (message_text clock a.answer ∷ rest)) input)
in_step nm sock user input cmd args outside clock world rest plain words other named =
    let a =
      nm_command-Answers nm sock user input cmd args outside
        (ap (λ s. split_string s 32) (trim_plain input plain) ∙ words) other in
    let text = message_text clock a.answer in
    (
      a,
      rw (← left_over-unread text rest)
          (input_reads world input (message_text clock a.answer) cmd args rest words other named),
    )
