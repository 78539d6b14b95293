-- ===== src/NameServer/Exec/Shown.antt =====
-- EXEC from end to end, over client/client.c, name_server/exec_handler.c and storage_server/file_ops.c:
-- what a user sees of a file that is run.
use mathlib.Core.List.{map}
use distributed_concurrent_f.Prelude.{
  ℕ, ◌≤◌, ◌<◌, true, false, ◌||◌, List, [], ◌∷◌, ◌++◌, append-nil, append_assoc, some, Bytes, codes,
  ℤ, length, take, take_all, str_eq, All, ◌==◌, ◌≡◌, ◌∙◌, refl, ap, arith,
}
use distributed_concurrent_f.CString.{split_string, trim_newline}
use distributed_concurrent_f.HashTable.{ht_get}
use distributed_concurrent_f.HashTable.Chain.{FileMetadata}
use distributed_concurrent_f.StorageServer.{StorageServer}
use distributed_concurrent_f.StorageServer.Scan.{starts_with}
use distributed_concurrent_f.UndoHandler.{FileSystem}
use distributed_concurrent_f.FileOps.{content, file_path, handle_ss_read}
use distributed_concurrent_f.FileOps.Stream.Laws.{joined}
use distributed_concurrent_f.FileOps.Connection.{Answer, reply, ss_handle_client_connection}
use distributed_concurrent_f.FileOps.Connection.Laws.{IsWord, two_words}
use distributed_concurrent_f.NameServer.{NameServer, StorageServerInfo, find_ss, check_access}
use distributed_concurrent_f.NameServer.Commands.{
  Outside, send_all, handle_exec, dispatch, nm_command,
}
use distributed_concurrent_f.NameServer.Exec.{
  Shell, get_content_text, finished_text, output_pieces, run_script, execute,
}
use distributed_concurrent_f.NameServer.Exec.Output.{joined-output_pieces}
use distributed_concurrent_f.Client.{World, printed}
use distributed_concurrent_f.Client.Commands.{
  client_parse_and_execute, execute_words, at_exec, exec_loop, is_finished, is_error,
}
use distributed_concurrent_f.Client.Session.{IsOutput, last_event, exec_loop-output}
use distributed_concurrent_f.Client.Output.{answer_text, shown}

exec-IsWord : IsWord (codes "EXEC")
exec-IsWord = (λ (e : codes "EXEC" ≡ []). cc, (refl, (refl, (refl, (refl, tt)))))

get_content-IsWord : IsWord (codes "GET_CONTENT")
get_content-IsWord = (
  λ (e : codes "GET_CONTENT" ≡ []). cc,
  (refl, (refl, (refl, (refl, (refl, (refl, (refl, (refl, (refl, (refl, (refl, tt))))))))))),
)

-- No end of line.
abbrev pub IsPlain : Bytes → Type 0
IsPlain = All (λ c. (c == 13 || c == 10) ≡ false)

pub trim_plain : (s : Bytes) → IsPlain s → trim_newline s ≡ s
unfolding trim_newline
trim_plain [] h = refl
trim_plain (c ∷ s) h = rw (h.0, trim_newline) (rw (trim_plain s h.1) refl)

-- The user may read the file, and its storage server is connected.
pub record Allowed (nm : NameServer) (user f ip : Bytes) (port : ℤ) : Type 0 where
  pub meta : FileMetadata
  pub server : StorageServerInfo
  pub there : ht_get nm.file_table f ≡ some meta
  pub right : check_access meta user b'R' ≡ true
  pub at_ip : meta.ss_ip ≡ ip
  pub at_port : meta.ss_client_port ≡ port
  pub online : find_ss nm.ss_list ip port ≡ some server

exec_words :
    (f : Bytes)
    → IsWord f
    → IsPlain f
    → split_string (trim_newline (codes "EXEC " ++ f)) 32 ≡ codes "EXEC" ∷ f ∷ []
exec_words f word plain =
    ap (λ s. split_string s 32)
      (trim_plain (codes "EXEC " ++ f) (refl, (refl, (refl, (refl, (refl, plain))))))
    ∙ two_words (codes "EXEC") f exec-IsWord word

handle_exec-execute :
    (nm : NameServer) (sock : ℕ) (user f ip : Bytes) (port : ℤ) (outside : Outside)
    → Allowed nm user f ip port
    → handle_exec nm sock user (codes "EXEC" ∷ f ∷ []) outside
      ≡ send_all nm sock (execute outside.shell ip port f)
unfolding handle_exec
handle_exec-execute nm sock user f ip port outside a =
    let online : find_ss nm.ss_list a.meta.ss_ip a.meta.ss_client_port ≡ some a.server =
      rw (a.at_ip, a.at_port) a.online in
    rw (a.there, a.right, online, handle_exec) (rw (a.at_ip, a.at_port) refl)

-- EXEC of a file that the user may read.
pub nm_command-exec :
    (nm : NameServer) (sock : ℕ) (user f ip : Bytes) (port : ℤ) (outside : Outside)
    → IsWord f
    → IsPlain f
    → Allowed nm user f ip port
    → nm_command nm sock user (codes "EXEC " ++ f) outside
      ≡ send_all nm sock (execute outside.shell ip port f)
unfolding nm_command dispatch str_eq
nm_command-exec nm sock user f ip port outside word plain a =
    rw (exec_words f word plain, nm_command) (handle_exec-execute nm sock user f ip port outside a)

-- The file of that name holds `text` at a storage server that is reached, and the shell makes `out`
-- of it.
pub record Runs (shell : Shell) (ip : Bytes) (port : ℤ) (f text out : Bytes) : Type 0 where
  pub ss : StorageServer
  pub fs : FileSystem
  pub other : Answer → Bytes
  pub reachable : shell.reachable ip port ≡ true
  pub served :
      (req : Bytes)
      → shell.answer ip port req ≡ answer_text other (ss_handle_client_connection ss fs req).answer
  pub there : fs.files (file_path ss f) ≡ some text
  pub not_empty : 0 < length text
  pub fits : length text ≤ 4095
  pub request_fits : length (codes "GET_CONTENT " ++ f) ≤ 4095
  pub can_create : shell.can_create ≡ true
  pub output : shell.run text ≡ some out

get_content_reply :
    (ss : StorageServer) (fs : FileSystem) (f text : Bytes)
    → IsWord f
    → fs.files (file_path ss f) ≡ some text
    → (ss_handle_client_connection ss fs (codes "GET_CONTENT " ++ f)).answer ≡ reply (content text)
unfolding ss_handle_client_connection handle_ss_read str_eq
get_content_reply ss fs f text word there =
    rw (two_words (codes "GET_CONTENT") f get_content-IsWord word) (rw (there, handle_ss_read) refl)

module _ (shell : Shell) (ip : Bytes) (port : ℤ) (f text out : Bytes) (word : IsWord f)
    (r : Runs shell ip port f text out) where
  fetched : take 4095 (shell.answer ip port (get_content_text f)) ≡ text
  unfolding get_content_text
  fetched =
      ap (λ req. take 4095 (shell.answer ip port req))
        (take_all 4095 (codes "GET_CONTENT " ++ f) r.request_fits)
      ∙ ap (take 4095) (
          r.served (codes "GET_CONTENT " ++ f)
          ∙ ap (answer_text r.other) (get_content_reply r.ss r.fs f text word r.there))
      ∙ take_all 4095 text r.fits

  -- A file that is run is sent on as the pieces of its output.
  execute-pieces : execute shell ip port f ≡ output_pieces out ++ finished_text ∷ []
  unfolding execute run_script
  execute-pieces =
      let full : (length text == 0) ≡ false = ground (arith, r.not_empty) in
      rw (r.reachable, fetched) (rw (full, r.can_create) (rw (r.output, run_script) refl))

client_exec :
    (world : World) (f : Bytes)
    → IsWord f
    → client_parse_and_execute world (codes "EXEC " ++ f) ≡ at_exec world (codes "EXEC " ++ f)
unfolding client_parse_and_execute execute_words str_eq
client_exec world f word = rw (two_words (codes "EXEC") f exec-IsWord word) refl

finished_ends : (is_finished finished_text || is_error finished_text) ≡ true
unfolding is_finished is_error starts_with
finished_ends = refl

finished_silent : last_event finished_text ≡ []
unfolding is_finished starts_with
finished_silent = refl

shown-pieces : (l : List Bytes) → shown (map printed l) ≡ joined l
unfolding shown joined
shown-pieces [] = refl
shown-pieces (w ∷ l) = rw (shown-pieces l) refl

-- EXEC of a file that the user may read, that is not empty and fits one message: the name server
-- answers with the output of the shell on the text that the storage server has, in pieces, and a
-- last message; and a client whose next messages are these shows the output, all of it, and has
-- read no further. No piece of the output starts like an answer of the name server.
pub shown-exec :
    (nm : NameServer) (sock : ℕ) (user f ip : Bytes) (port : ℤ) (outside : Outside)
    (text out : Bytes) (world : World) (rest : List Bytes)
    → IsWord f
    → IsPlain f
    → Allowed nm user f ip port
    → Runs outside.shell ip port f text out
    → All IsOutput (output_pieces out)
    → world.nm_messages ≡ (output_pieces out ++ finished_text ∷ []) ++ rest
    → (nm_command nm sock user (codes "EXEC " ++ f) outside
        ≡ send_all nm sock (output_pieces out ++ finished_text ∷ []))
      × (shown (client_parse_and_execute world (codes "EXEC " ++ f)).events ≡ out)
      × ((client_parse_and_execute world (codes "EXEC " ++ f)).world.nm_messages ≡ rest)
unfolding at_exec shown
shown-exec nm sock user f ip port outside text out world rest word plain a r quiet sent =
    let messages : world.nm_messages ≡ output_pieces out ++ finished_text ∷ rest =
      sent ∙ append_assoc (output_pieces out) (finished_text ∷ []) rest in
    let read : exec_loop world.nm_messages ≡ (map printed (output_pieces out), rest) = rw messages (
      exec_loop-output (output_pieces out) finished_text rest quiet finished_ends
      ∙ rw (finished_silent, append-nil) refl) in
    (
      nm_command-exec nm sock user f ip port outside word plain a
          ∙ ap (send_all nm sock) (execute-pieces outside.shell ip port f text out word r),
      rw (client_exec world f word)
          (rw read (shown-pieces (output_pieces out) ∙ joined-output_pieces out)),
      rw (client_exec world f word) (rw read refl),
    )
