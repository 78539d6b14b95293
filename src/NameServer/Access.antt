-- ===== src/NameServer/Access.antt =====
-- Who may do what in name_server/client_handler.c: ADDACCESS and REMACCESS change the rights to a
-- file, and READ, WRITE, STREAM and UNDO are sent to its storage server by them.
use mathlib.Core.Option
use distributed_concurrent_f.Prelude.{
  ◌==◌, codes, ℕ, ◌≤◌, Bool, true, false, not, ◌&&◌, ◌||◌, List, [], ◌∷◌, ◌++◌, ◌≡◌, refl, arith,
  Bytes, none, some, Option-cases, inl, inr, length, max_name, str_eq, str_eq_refl, str_eq_iff,
  ==_iff, ℤ, int_eq, if◌then◌else◌,
}
use distributed_concurrent_f.AccessList.Laws.{Unique, get-add_access, get-remove_access}
use distributed_concurrent_f.AccessList.{get_access}
use distributed_concurrent_f.HashTable.{HashTable, ht_get, ht_modify}
use distributed_concurrent_f.HashTable.Chain.{FileMetadata}
use distributed_concurrent_f.HashTable.Laws.{get-modify}
use distributed_concurrent_f.NameServer.{
  NameServer, StorageServerInfo, Message, no_file, denied, offline, go_to, granted, removed,
  find_ss, check_access, nm_save_files,
}
use distributed_concurrent_f.NameServer.Handlers.{
  required_perm, touch, handle_read_write_stream, grant, revoke, AccessRequest, add, remove,
  invalid, parse_access, change_access, serve_access, handle_access,
}
use distributed_concurrent_f.NameServer.Create.{allows}

-- After a grant of `perm` to `u`, the owner may do all, `u` what `perm` allows, and all others what
-- they could.
pub check-grant :
    (m : FileMetadata) (u q : Bytes) (perm wanted : ℕ)
    → length u ≤ max_name
    → check_access (grant u perm m) q wanted
      ≡ (if str_eq q u then str_eq m.owner q || allows perm wanted else check_access m q wanted)
unfolding check_access
check-grant m u q perm wanted h =
    ground (arith, get-add_access m.access_list u q perm h, ==_iff wanted b'R', ==_iff wanted b'W')

-- Where no user has two entries, a user who is removed may do nothing but as the owner, and all
-- others what they could.
pub check-revoke :
    (m : FileMetadata) (u q : Bytes) (wanted : ℕ)
    → Unique m.access_list
    → check_access (revoke u m) q wanted
      ≡ (if str_eq q u then str_eq m.owner q else check_access m q wanted)
unfolding check_access
check-revoke m u q wanted h =
    ground (arith, get-remove_access m.access_list u q h, ==_iff wanted b'R', ==_iff wanted b'W')

change_owner :
    (nm : NameServer) (sock : ℕ) (username f q : Bytes) (change : FileMetadata → FileMetadata)
    (done : Message)
    → ((m : FileMetadata) → (change m).filename ≡ m.filename)
    → (m : FileMetadata) → ht_get nm.file_table q ≡ some m
    → str_eq m.owner username ≡ false
    → ht_get (change_access nm sock username f change done).file_table q ≡ some m
unfolding change_access nm_save_files
change_owner nm sock username f q change done keeps m e o =
    ground (arith, get-modify change keeps nm.file_table f q, str_eq_iff q f)

serve_owner :
    (nm : NameServer) (sock : ℕ) (username q : Bytes) (r : AccessRequest) (m : FileMetadata)
    → ht_get nm.file_table q ≡ some m
    → str_eq m.owner username ≡ false
    → ht_get (serve_access nm sock username r).file_table q ≡ some m
serve_owner nm sock username q (add f u perm) m e o =
    change_owner nm sock username f q (grant u perm) granted (λ m. refl) m e o
serve_owner nm sock username q (remove f u) m e o =
    change_owner nm sock username f q (revoke u) removed (λ m. refl) m e o
serve_owner nm sock username q (invalid error) m e o = e

-- No command on the rights changes a file that is not the caller's.
pub handle_access-owner :
    (nm : NameServer) (sock : ℕ) (username q : Bytes) (args : List Bytes) (m : FileMetadata)
    → ht_get nm.file_table q ≡ some m
    → str_eq m.owner username ≡ false
    → ht_get (handle_access nm sock username args).file_table q ≡ some m
unfolding handle_access
handle_access-owner nm sock username q args m e o =
    serve_owner nm sock username q (parse_access args) m e o

-- Some connected storage server listens at the address.
abbrev pub is_connected : List StorageServerInfo → Bytes → ℤ → Bool
is_connected [] ip port = false
is_connected (s ∷ l) ip port =
    (str_eq s.ip ip && int_eq s.client_port port) || is_connected l ip port

find-connected :
    (l : List StorageServerInfo) (ip : Bytes) (port : ℤ)
    → is_connected l ip port ≡ elim (find_ss l ip port) [ none ↦ false | some ss ↦ true ]
unfolding find_ss
find-connected [] ip port = refl
find-connected (s ∷ l) ip port = ground (arith, find-connected l ip port)

-- The commands that change a file.
abbrev pub changes : Bytes → Bool
changes cmd = str_eq cmd (codes "WRITE") || str_eq cmd (codes "UNDO")

-- The owner may do all, a user with the permission `W` too, and one with `R` what changes nothing.
abbrev pub may_do : FileMetadata → Bytes → Bytes → Bool
may_do m username cmd =
    let perm = get_access m.access_list username in
    str_eq m.owner username || (perm == b'W' || (not (changes cmd) && perm == b'R'))

-- The reply on a file: where it is, if the user may do that and its server is connected.
abbrev pub directs : NameServer → Bytes → Bytes → Bytes → Message
directs nm username cmd filename = elim (ht_get nm.file_table filename) [
  | none ↦ no_file
  | some m ↦
      if not (may_do m username cmd)
      then denied (if changes cmd then b'W' else b'R')
      else if is_connected nm.ss_list m.ss_ip m.ss_client_port
      then go_to m.ss_ip m.ss_client_port
      else offline
]

pub record Directs (nm : NameServer) (sock : ℕ) (username cmd filename : Bytes) (after : NameServer)
    : Type 0 where
  pub sent : after.sends ≡ nm.sends ++ (sock, directs nm username cmd filename) ∷ []
  pub rights :
      (q user : Bytes) (wanted : ℕ)
      → Option.map (λ m. check_access m user wanted) (ht_get after.file_table q)
        ≡ Option.map (λ m. check_access m user wanted) (ht_get nm.file_table q)

pub touch_rights :
    (t : HashTable) (f q user : Bytes) (now : ℤ) (wanted : ℕ)
    → Option.map (λ m. check_access m user wanted) (ht_get (ht_modify t f (touch now)) q)
      ≡ Option.map (λ m. check_access m user wanted) (ht_get t q)
unfolding check_access
touch_rights t f q user now wanted = elim (Option-cases (ht_get t q)) [
  | inl e ↦ ground (arith, e, get-modify (touch now) (λ m. refl) t f q)
  | inr (m, e) ↦ ground (arith, e, get-modify (touch now) (λ m. refl) t f q)
]

may_do-eq :
    (m : FileMetadata) (username cmd : Bytes)
    → check_access m username (required_perm cmd) ≡ may_do m username cmd
unfolding check_access required_perm
may_do-eq m username cmd = ground arith

-- READ, WRITE, STREAM and UNDO with a file name: the client is sent to the server of the file exactly if
-- the file is there, the user may do that, and that server is connected. The owner may do all four, a
-- user with the permission `W` too, and one with `R` READ and STREAM. Nobody's rights change.
pub handle_read_write_stream_lem :
    (nm : NameServer) (sock : ℕ) (username cmd filename : Bytes) (rest : List Bytes) (now : ℤ)
    → Directs nm sock username cmd filename
        (handle_read_write_stream nm sock username (cmd ∷ filename ∷ rest) now)
unfolding handle_read_write_stream required_perm
handle_read_write_stream_lem nm sock username cmd filename rest now =
    elim (Option-cases (ht_get nm.file_table filename)) [
      | inl e ↦ record { sent = ground (arith, e); rights = λ q user wanted. ground (arith, e) }
      | inr (m, e) ↦ record {
        sent = ground (
          arith,
          e,
          may_do-eq m username cmd,
          find-connected nm.ss_list m.ss_ip m.ss_client_port,
        );
        rights = λ q user wanted.
            ground (arith, e, touch_rights nm.file_table filename q user now wanted);
      }
    ]

parse_add :
    (f u : Bytes) (write : Bool)
    → parse_access (codes "ADDACCESS" ∷ (if write then codes "-W" else codes "-R") ∷ f ∷ u ∷ [])
      ≡ add f u (if write then b'W' else b'R')
unfolding parse_access str_eq
parse_add f u true = refl
parse_add f u false = refl

-- ADDACCESS by the owner gives the user, whose name is not cut, what the letter allows, and no
-- other user gains or loses a right to the file.
pub handle_access-grants :
    (nm : NameServer) (sock : ℕ) (username f u q : Bytes) (write : Bool) (wanted : ℕ)
    (m : FileMetadata)
    → ht_get nm.file_table f ≡ some m
    → str_eq m.owner username ≡ true
    → length u ≤ max_name
    → Option.map
        (λ n. check_access n q wanted)
        (ht_get
          (handle_access nm sock username (
            codes "ADDACCESS" ∷ (if write then codes "-W" else codes "-R") ∷ f ∷ u ∷ [])).file_table
          f)
      ≡ some (
          if str_eq q u
          then str_eq m.owner q || allows (if write then b'W' else b'R') wanted
          else check_access m q wanted)
unfolding handle_access change_access nm_save_files
handle_access-grants nm sock username f u q write wanted m e o h =
    let perm : ℕ = if write then b'W' else b'R' in
    ground (
      arith,
      e,
      o,
      parse_add f u write,
      get-modify (grant u perm) (λ m. refl) nm.file_table f f,
      str_eq_refl f,
      check-grant m u q perm wanted h,
    )
