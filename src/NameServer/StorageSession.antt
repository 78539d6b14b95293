-- ===== src/NameServer/StorageSession.antt =====
-- What the connection of a storage server leaves behind in the name server (name_server/ss_handler.c).
use mathlib.Core.Option
use distributed_concurrent_f.Prelude.{
  ℕ, true, false, List, [], ◌∷◌, Option, none, some, Bytes, ℤ, ◌==◌, if◌then◌else◌, get_or, ◌≡◌,
  ◌∙◌, refl, ap, arith, Bool, Bool-cases, Option-cases, inl, inr,
}
use distributed_concurrent_f.CString.{split_string, atoi}
use distributed_concurrent_f.HashTable.{HashTable, ht_get}
use distributed_concurrent_f.HashTable.Chain.{FileMetadata}
use distributed_concurrent_f.NameServer.{
  NameServer, nm_save_files, add_ss, remove_ss, drop_ss, send_message, invalid_init,
}
use distributed_concurrent_f.NameServer.Ownership.{rights, rights_of}
use distributed_concurrent_f.NameServer.Registration.{get-relocate, get-info_file}
use distributed_concurrent_f.NameServer.SsHandler.{
  move, relocate, listed_files, register_ss, is_no_registration, set_stats, info_file,
  nm_handle_ss_message, serve_ss, nm_handle_ss_messages, serve_storage,
}

-- The same files with the same owners and access lists, the same users, clients and storage servers.
pub record Keeps (nm x : NameServer) : Type 0 where
  pub owners : (q : Bytes) → rights_of x.file_table q ≡ rights_of nm.file_table q
  pub users : x.all_users_list ≡ nm.all_users_list
  pub clients : x.client_list ≡ nm.client_list
  pub servers : x.ss_list ≡ nm.ss_list

self-Keeps : (nm : NameServer) → Keeps nm nm
self-Keeps nm = record { owners = λ q. refl; users = refl; clients = refl; servers = refl }

trans-Keeps : (nm x y : NameServer) → Keeps nm x → Keeps x y → Keeps nm y
trans-Keeps nm x y h k = record {
  owners = λ q. k.owners q ∙ h.owners q;
  users = k.users ∙ h.users;
  clients = k.clients ∙ h.clients;
  servers = k.servers ∙ h.servers;
}

if-Keeps :
    {nm x y : NameServer} (b : Bool) → Keeps nm x → Keeps nm y → Keeps nm (if b then x else y)
if-Keeps true h k = h
if-Keeps false h k = k

info_rest :
    (nm : NameServer) (f : Bytes) (change : FileMetadata → FileMetadata)
    → ((info_file nm f change).all_users_list ≡ nm.all_users_list)
      × ((info_file nm f change).client_list ≡ nm.client_list)
      × ((info_file nm f change).ss_list ≡ nm.ss_list)
unfolding nm_save_files
info_rest nm f change = elim (Option-cases (ht_get nm.file_table f)) [
  | inl e ↦ ground (arith, e)
  | inr (m, e) ↦ ground (arith, e)
]

map_kept :
    (change : FileMetadata → FileMetadata)
    → ((m : FileMetadata) → rights (change m) ≡ rights m)
    → (o : Option FileMetadata) → Option.map rights (Option.map change o) ≡ Option.map rights o
map_kept change h none = refl
map_kept change h (some m) = ap some (h m)

info_Keeps :
    (nm : NameServer) (f : Bytes) (size words chars now : ℤ)
    → Keeps nm (info_file nm f (set_stats size words chars now))
info_Keeps nm f size words chars now =
    let set = set_stats size words chars now in
    record {
      owners = λ q.
          ap (Option.map rights) (get-info_file nm f q set (λ m. refl))
          ∙ ground (arith, map_kept set (λ m. refl) (ht_get nm.file_table q));
      users = (info_rest nm f set).0;
      clients = (info_rest nm f set).1;
      servers = (info_rest nm f set).2;
    }

pub message_Keeps :
    (nm : NameServer) (buffer : Bytes) (now : ℤ) → Keeps nm (nm_handle_ss_message nm buffer now)
unfolding nm_handle_ss_message
message_Keeps nm buffer now =
    let parts = split_string buffer 32 in
    if-Keeps _ (self-Keeps nm) (
      if-Keeps _
        (info_Keeps nm (get_or parts 1 []) (atoi (get_or parts 2 [])) (atoi (get_or parts 3 []))
          (atoi (get_or parts 4 [])) now)
        (self-Keeps nm))

serve_Keeps : (nm : NameServer) (messages : List (Bytes × ℤ)) → Keeps nm (serve_ss nm messages)
unfolding serve_ss
serve_Keeps nm [] = self-Keeps nm
serve_Keeps nm ((buffer, now) ∷ messages) =
    trans-Keeps nm (nm_handle_ss_message nm buffer now) _ (message_Keeps nm buffer now)
      (serve_Keeps (nm_handle_ss_message nm buffer now) messages)

-- Files that move keep their owners and their access lists.
pub relocate_rights :
    (t : HashTable) (ip : Bytes) (port : ℤ) (files : List Bytes) (q : Bytes)
    → rights_of (relocate t ip port files) q ≡ rights_of t q
relocate_rights t ip port files q =
    ap (Option.map rights) (get-relocate t ip port files q)
    ∙ ground (arith, map_kept (move ip port) (λ m. refl) (ht_get t q))

-- A registration, up to the end of its connection.
session_Keeps :
    (nm : NameServer) (sock : ℕ) (ip : Bytes) (port : ℤ) (files : List Bytes)
    (messages : List (Bytes × ℤ))
    → Keeps nm (nm_handle_ss_messages (register_ss nm sock ip port files) sock messages)
unfolding nm_handle_ss_messages register_ss add_ss remove_ss drop_ss
session_Keeps nm sock ip port files messages =
    let k = serve_Keeps (register_ss nm sock ip port files) messages in
    let self : (sock == sock) ≡ true = ground arith in
    record {
      owners = λ q. k.owners q ∙ relocate_rights nm.file_table ip port files q;
      users = k.users;
      clients = k.clients;
      servers = ap (λ l. drop_ss l sock) k.servers ∙ rw (self, drop_ss) refl;
    }

sent_Keeps : (nm : NameServer) (sock : ℕ) → Keeps nm (send_message nm sock invalid_init)
sent_Keeps nm sock = record { owners = λ q. refl; users = refl; clients = refl; servers = refl }

-- Whatever a storage server sends, from its registration to its end, and whatever files it claims, its
-- connection makes and takes away no file, changes no owner, no access list, no user and no client,
-- and leaves the list of storage servers as it was, if nothing else happens meanwhile.
pub serve_storage-Keeps :
    (nm : NameServer) (sock : ℕ) (ip buffer : Bytes) (messages : List (Bytes × ℤ))
    → Keeps nm (serve_storage nm sock ip buffer messages)
unfolding serve_storage
serve_storage-Keeps nm sock ip buffer messages =
    let parts = split_string buffer 32 in
    elim (Bool-cases (is_no_registration parts)) [
      | inl e ↦ rw (e, serve_storage) (sent_Keeps nm sock)
      | inr e ↦
          rw (e, serve_storage)
            (session_Keeps nm sock ip (atoi (get_or parts 1 [])) (listed_files (get_or parts 2 []))
              messages)
    ]
