-- ===== src/NameServer/Exec.antt =====
-- name_server/exec_handler.c behind its checks: the file is fetched from its storage server, written
-- to a temporary file and run, and its output is sent on. What the storage server, the disk and the
-- shell answer is the record `Shell`.
pub mod Output
pub mod Shown
use distributed_concurrent_f.Prelude.{
  ◌==◌, Bool, List, [], ◌∷◌, ◌++◌, Option, none, some, Bytes, codes, ℤ, if◌then◌else◌, length, take,
}
use distributed_concurrent_f.CString.{lines_from}

-- `answer ip port request` is what waits on the connection when `recv` is called, nothing if the
-- connection has failed or is closed; `run script` is what the pipe gives up to its
-- end, `none` if `popen` fails; a script that never ends is left out.
pub record Shell : Type 0 where
  pub reachable : Bytes → ℤ → Bool
  pub answer : Bytes → ℤ → Bytes → Bytes
  pub can_create : Bool  -- `mkstemp` succeeds
  pub run : Bytes → Option Bytes

-- The message to the storage server.
unfoldable pub get_content_text : Bytes → Bytes
get_content_text filename = take 4095 (codes "GET_CONTENT " ++ filename)

abbrev pub finished_text : Bytes
finished_text = codes "201 OK: Execution finished."

-- The loop over the output with `read_buf[1024]`.
unfoldable pub output_pieces : Bytes → List Bytes
unfolding lines_from
output_pieces out = lines_from 1022 out []

-- The file is in place.
unfoldable pub run_script : Shell → Bytes → List Bytes
unfolding output_pieces
run_script shell file_content =
    if shell.can_create
    then elim (shell.run file_content) [
      | none ↦ codes "500 ERROR: Failed to execute script." ∷ []
      | some out ↦ output_pieces out ++ finished_text ∷ []
    ]
    else codes "500 ERROR: Could not create temp script." ∷ []

-- What is sent to the client of the file of that name at that storage server; `recv_message` takes
-- 4095 bytes at most.
unfoldable pub execute : Shell → Bytes → ℤ → Bytes → List Bytes
unfolding run_script get_content_text
execute shell ip port filename =
    let file_content = take 4095 (shell.answer ip port (get_content_text filename)) in
    if shell.reachable ip port
    then if length file_content == 0
      then codes "500 ERROR: Failed to read script content from SS." ∷ []
      else run_script shell file_content
    else codes "503 ERROR: Could not connect to SS to fetch script." ∷ []
