-- ===== src/NameServer/Answers/Commands.antt =====
-- Every command but EXEC is answered once: `nm_handle_client_request` of name_server/client_handler.c.
use distributed_concurrent_f.Prelude.{ℕ, true, false, List, ◌∷◌, Bytes, codes, str_eq, ◌≡◌, refl}
use distributed_concurrent_f.CString.{split_string, trim_newline}
use distributed_concurrent_f.NameServer.{NameServer, unknown_command}
use distributed_concurrent_f.NameServer.Commands.{Outside, dispatch, nm_command}
use distributed_concurrent_f.NameServer.Answers.{
  is_command, Answers, send-Answers, if-Answers, create_delete-Answers, access-Answers,
  read-Answers, info-Answers, view-Answers, list-Answers,
}

dispatch-Answers :
    (nm : NameServer) (sock : ℕ) (user cmd : Bytes) (args : List Bytes) (outside : Outside)
    → str_eq cmd (codes "EXEC") ≡ false
    → Answers sock nm (dispatch nm sock user cmd args outside)
unfolding dispatch is_command
dispatch-Answers nm sock user cmd args outside h = rw h (
    if-Answers _ (view-Answers nm sock user args) (
      if-Answers _ (create_delete-Answers nm sock user args true outside.times) (
        if-Answers _ (create_delete-Answers nm sock user args false outside.times) (
          if-Answers _ (read-Answers nm sock user args outside.now) (
            if-Answers _ (info-Answers nm sock user args) (
              if-Answers _ (access-Answers nm sock user args) (
                if-Answers _ (list-Answers nm sock user)
                  (send-Answers nm nm sock unknown_command refl refl))))))))

-- A message that holds a command other than EXEC makes the name server send its client one answer,
-- whatever the command and the state, and before it at most one message to another socket, which is
-- a command to a storage server.
pub nm_command-Answers :
    (nm : NameServer) (sock : ℕ) (user buffer cmd : Bytes) (rest : List Bytes) (outside : Outside)
    → split_string (trim_newline buffer) 32 ≡ cmd ∷ rest
    → str_eq cmd (codes "EXEC") ≡ false
    → Answers sock nm (nm_command nm sock user buffer outside)
unfolding nm_command
nm_command-Answers nm sock user buffer cmd rest outside words other =
    rw (words, nm_command) (dispatch-Answers nm sock user cmd (cmd ∷ rest) outside other)
