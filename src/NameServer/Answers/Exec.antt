-- ===== src/NameServer/Answers/Exec.antt =====
-- EXEC (name_server/exec_handler.c) ends its answers with one that the client takes for the end.
use mathlib.Core.List.{map, map-append}
use distributed_concurrent_f.Prelude.{
  arith, ℕ, true, false, not, ◌||◌, Bool, List, [], ◌∷◌, ◌++◌, append-nil, append_assoc, Bytes, ℤ,
  Option-cases, length, ltb, get_or, if◌then◌else◌, ◌≡◌, ◌∙◌, refl, sym, ap, Bool-cases, inl, inr,
}
use distributed_concurrent_f.StorageServer.Scan.{starts_with}
use distributed_concurrent_f.HashTable.{ht_get}
use distributed_concurrent_f.NameServer.{
  NameServer, Message, no_file, read_denied, offline, output, send_message, find_ss, check_access,
}
use distributed_concurrent_f.NameServer.Commands.{Outside, send_all, handle_exec}
use distributed_concurrent_f.NameServer.Exec.{
  Shell, finished_text, output_pieces, run_script, execute,
}
use distributed_concurrent_f.NameServer.Texts.{Clock, message_text}
use distributed_concurrent_f.Client.Commands.{is_finished, is_error, exec_loop}

-- The client stops to read at this text.
abbrev pub Ends : Bytes → Type 0
Ends text = (is_finished text || is_error text) ≡ true

-- What `x` has sent since `nm`: outputs, and a last message at which the client stops.
pub record Streams (sock : ℕ) (clock : Clock) (nm x : NameServer) : Type 0 where
  pub outputs : List Bytes
  pub last : Message
  pub ends : Ends (message_text clock last)
  pub sent : x.sends ≡ nm.sends ++ (map (λ t. (sock, output t)) outputs ++ (sock, last) ∷ [])

error-Streams :
    (sock : ℕ) (clock : Clock) (nm : NameServer) (m : Message)
    → Ends (message_text clock m)
    → Streams sock clock nm (send_message nm sock m)
error-Streams sock clock nm m h = record { outputs = []; last = m; ends = h; sent = refl }

-- The texts end with one at which the client stops.
pub record EndsTexts (texts : List Bytes) : Type 0 where
  pub outputs : List Bytes
  pub last : Bytes
  pub ends : Ends last
  pub all : texts ≡ outputs ++ last ∷ []

abbrev single : (t : Bytes) → Ends t → EndsTexts (t ∷ [])
single t h = record { outputs = []; last = t; ends = h; all = refl }

run_script-EndsTexts : (shell : Shell) (text : Bytes) → EndsTexts (run_script shell text)
unfolding run_script is_finished is_error starts_with
run_script-EndsTexts shell text = elim (Bool-cases shell.can_create) [
  | inr e ↦ rw e (single _ refl)
  | inl e ↦ elim (Option-cases (shell.run text)) [
    | inl none_run ↦ rw (e, none_run, run_script) (single _ refl)
    | inr (out, runs) ↦
        rw (e, runs, run_script)
          (record { outputs = output_pieces out; last = finished_text; ends = refl; all = refl })
  ]
]

if-EndsTexts :
    {a b : List Bytes} (c : Bool) → EndsTexts a → EndsTexts b → EndsTexts (if c then a else b)
if-EndsTexts true h k = h
if-EndsTexts false h k = k

execute-EndsTexts :
    (shell : Shell) (ip : Bytes) (port : ℤ) (f : Bytes) → EndsTexts (execute shell ip port f)
unfolding execute is_finished is_error starts_with
execute-EndsTexts shell ip port f =
    if-EndsTexts (shell.reachable ip port)
      (if-EndsTexts _ (single _ refl) (run_script-EndsTexts shell _)) (single _ refl)

sends-send_all :
    (nm : NameServer) (sock : ℕ) (texts : List Bytes)
    → (send_all nm sock texts).sends ≡ nm.sends ++ map (λ t. (sock, output t)) texts
unfolding send_all
sends-send_all nm sock [] = sym (append-nil nm.sends)
sends-send_all nm sock (t ∷ texts) =
    sends-send_all (send_message nm sock (output t)) sock texts
    ∙ append_assoc nm.sends ((sock, output t) ∷ []) (map (λ t. (sock, output t)) texts)

send_all-Streams :
    (sock : ℕ) (clock : Clock) (nm : NameServer) (texts : List Bytes)
    → EndsTexts texts
    → Streams sock clock nm (send_all nm sock texts)
unfolding message_text
send_all-Streams sock clock nm texts h = record {
  outputs = h.outputs;
  last = output h.last;
  ends = h.ends;
  sent =
      sends-send_all nm sock texts
      ∙ ap (λ l. nm.sends ++ l)
          (ap (map (λ t. (sock, output t))) h.all
            ∙ map-append (λ t. (sock, output t)) h.outputs (h.last ∷ []));
}

if-Streams :
    {sock : ℕ} {clock : Clock} {nm x y : NameServer} (b : Bool)
    → Streams sock clock nm x
    → Streams sock clock nm y
    → Streams sock clock nm (if b then x else y)
if-Streams true h k = h
if-Streams false h k = k

exec_sends :
    (nm : NameServer) (sock : ℕ) (user : Bytes) (args : List Bytes) (outside : Outside)
    (clock : Clock)
    → Streams sock clock nm (handle_exec nm sock user args outside)
unfolding handle_exec message_text is_finished is_error starts_with
exec_sends nm sock user args outside clock = elim (Bool-cases (ltb (length args) 2)) [
  | inl few ↦ rw (few, handle_exec) (error-Streams sock clock nm _ refl)
  | inr enough ↦
      let f = get_or args 1 [] in
      elim (Option-cases (ht_get nm.file_table f)) [
        | inl e ↦ rw (enough, e, handle_exec) (error-Streams sock clock nm no_file refl)
        | inr (m, e) ↦ elim (Option-cases (find_ss nm.ss_list m.ss_ip m.ss_client_port)) [
          | inl k ↦
              rw (enough, e, handle_exec, k)
                (if-Streams (not (check_access m user b'R'))
                  (error-Streams sock clock nm read_denied refl)
                  (error-Streams sock clock nm offline refl))
          | inr (ss, k) ↦
              rw (enough, e, handle_exec, k)
                (if-Streams (not (check_access m user b'R'))
                  (error-Streams sock clock nm read_denied refl)
                  (send_all-Streams sock clock nm _
                    (execute-EndsTexts outside.shell m.ss_ip m.ss_client_port f)))
        ]
      ]
]

-- The loop of the client ends at the last message, if not before.
exec_stops :
    (outputs rest : List Bytes) (last : Bytes)
    → Ends last
    → (unread : List Bytes) × ((exec_loop (outputs ++ last ∷ rest)).1 ≡ unread ++ rest)
unfolding exec_loop
exec_stops [] rest last h = ([], ground (arith, h))
exec_stops (t ∷ outputs) rest last h =
    let (unread, e) = exec_stops outputs rest last h in
    elim (Bool-cases (is_finished t)) [
      | inl finished ↦ (
        outputs ++ last ∷ [],
        rw (finished, exec_loop) (sym (append_assoc outputs (last ∷ []) rest)),
      )
      | inr open_end ↦ elim (Bool-cases (is_error t)) [
        | inl error ↦ (
          outputs ++ last ∷ [],
          rw (open_end, error, exec_loop) (sym (append_assoc outputs (last ∷ []) rest)),
        )
        | inr more ↦ (unread, rw (open_end, more, exec_loop) e)
      ]
    ]

-- Where the storage server answers, cannot be reached or goes away, and a script that is run ends, EXEC
-- sends its client any number of outputs and then one last message. A client that reads these in its
-- loop has left the loop by then: what comes behind that message is still to be read.
pub handle_exec-Streams :
    (nm : NameServer) (sock : ℕ) (user : Bytes) (args : List Bytes) (outside : Outside)
    (clock : Clock) (rest : List Bytes)
    → (s : Streams sock clock nm (handle_exec nm sock user args outside)) × (unread : List Bytes)
      × ((exec_loop (s.outputs ++ message_text clock s.last ∷ rest)).1 ≡ unread ++ rest)
handle_exec-Streams nm sock user args outside clock rest =
    let s = exec_sends nm sock user args outside clock in
    let stops = exec_stops s.outputs rest (message_text clock s.last) s.ends in
    (s, stops.0, stops.1)
