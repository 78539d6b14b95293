-- ===== src/NameServer/Messages.antt =====
-- What three messages of the name server are on the wire (name_server/client_handler.c): the commands to a
-- storage server, and the address that a client is sent to.
use distributed_concurrent_f.Prelude.{◌∷◌, ◌++◌, Bytes, codes, ℤ, take}
use distributed_concurrent_f.Decimal.{print_int}

-- `snprintf(cmd_buf, sizeof(cmd_buf), "CREATE %s", filename)`
unfoldable pub create_text : Bytes → Bytes
create_text filename = take 4095 (codes "CREATE " ++ filename)

unfoldable pub delete_text : Bytes → Bytes
delete_text filename = take 4095 (codes "DELETE " ++ filename)

-- `202 OK <ip>:<port>`
unfoldable pub go_to_text : Bytes → ℤ → Bytes
go_to_text ip port = take 4095 (codes "202 OK " ++ ip ++ 58 ∷ print_int port)
