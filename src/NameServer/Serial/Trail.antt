-- ===== src/NameServer/Serial/Trail.antt =====
-- The catalog of the name server while the handlers of its connections (name_server/client_handler.c,
-- name_server/ss_handler.c) run one after the other.
use distributed_concurrent_f.Prelude.{◌≡◌, ◌≤◌, List, [], ◌∷◌, Bytes, All, length, max_name, refl}
use distributed_concurrent_f.CString.{split_string, trim_newline}
use distributed_concurrent_f.NameServer.{NameServer, remove_client, remove_ss}
use distributed_concurrent_f.NameServer.Catalog.{Catalog, catalog, Change}
use distributed_concurrent_f.NameServer.ClientHandler.Laws.{enter_table}
use distributed_concurrent_f.NameServer.Ownership.{rights_of}
use distributed_concurrent_f.NameServer.Refinement.Commands.{ShortWords, Tidy, nm_command-refines}
use distributed_concurrent_f.NameServer.Refinement.Rights.{Same, rights-Same, rights-Tidy}
use distributed_concurrent_f.NameServer.StorageSession.{message_Keeps}
use distributed_concurrent_f.NameServer.Serial.{
  Happening, arrives, commands, leaves, registers, reports, fails, happen, run, happen-IsTable,
  init_rights,
}

-- What a handler may do to the catalog: a command what its user may, any other nothing.
abbrev pub Effect : Happening → Catalog → Catalog → Type 0
Effect (arrives sock user) c d = Same c d
Effect (commands sock user buffer outside) c d = Change user c d
Effect (leaves sock) c d = Same c d
Effect (registers sock ip buffer) c d = Same c d
Effect (reports buffer now) c d = Same c d
Effect (fails sock) c d = Same c d

-- The catalogs that one handler after the other leaves.
pub data Trail : List Happening → Catalog → Catalog → Type 0 where
  rests : {c : Catalog} → Trail [] c c
  goes_on :
      {h : Happening} {happenings : List Happening} {c d e : Catalog}
      → Effect h c d
      → Trail happenings d e
      → Trail (h ∷ happenings) c e

-- No name of a user is cut, and no word of a command is.
abbrev pub Fits : Happening → Type 0
Fits (arrives sock user) = Unit
Fits (commands sock user buffer outside) =
    (length user ≤ max_name) × ShortWords (split_string (trim_newline buffer) 32)
Fits (leaves sock) = Unit
Fits (registers sock ip buffer) = Unit
Fits (reports buffer now) = Unit
Fits (fails sock) = Unit

abbrev Follows : NameServer → Happening → Type 0
Follows nm h =
    Effect h (catalog nm.file_table) (catalog (happen nm h).file_table) × Tidy (happen nm h)

-- A handler that leaves all rights alone.
quiet :
    (nm : NameServer) (h : Happening)
    → ((q : Bytes) → rights_of (happen nm h).file_table q ≡ rights_of nm.file_table q)
    → Tidy nm
    → Same (catalog nm.file_table) (catalog (happen nm h).file_table) × Tidy (happen nm h)
quiet nm h same tidy = (
  rights-Same nm.file_table (happen nm h).file_table same,
  rights-Tidy nm (happen nm h) same (happen-IsTable nm h tidy.table) tidy,
)

happen-Follows : (nm : NameServer) (h : Happening) → Fits h → Tidy nm → Follows nm h
unfolding remove_client remove_ss
happen-Follows nm (arrives sock user) fits tidy =
    quiet nm (arrives sock user) (λ q. rw (enter_table nm sock user) refl) tidy
happen-Follows nm (commands sock user buffer outside) fits tidy =
    nm_command-refines nm sock user buffer outside tidy fits.0 fits.1
happen-Follows nm (leaves sock) fits tidy = quiet nm (leaves sock) (λ q. refl) tidy
happen-Follows nm (registers sock ip buffer) fits tidy =
    quiet nm (registers sock ip buffer) (init_rights nm sock ip buffer) tidy
happen-Follows nm (reports buffer now) fits tidy =
    quiet nm (reports buffer now) (message_Keeps nm buffer now).owners tidy
happen-Follows nm (fails sock) fits tidy = quiet nm (fails sock) (λ q. refl) tidy

-- If the table is in good order, no name of a user has more than 255 bytes and no word of a command
-- has, then in whatever order the handlers of all connections run, each to its end before the next
-- begins, a command of a user makes a change of the catalog that this user may make, every other
-- handler leaves all owners and rights as they are, and the table stays in good order.
pub run-Trail :
    (nm : NameServer) (happenings : List Happening)
    → Tidy nm
    → All Fits happenings
    → Trail happenings (catalog nm.file_table) (catalog (run nm happenings).file_table)
      × Tidy (run nm happenings)
run-Trail nm [] tidy fit = (rests, tidy)
run-Trail nm (h ∷ happenings) tidy fit =
    let (effect, after) = happen-Follows nm h fit.0 tidy in
    let (trail, last) = run-Trail (happen nm h) happenings after fit.1 in
    (goes_on effect trail, last)
