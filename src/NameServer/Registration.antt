-- ===== src/NameServer/Registration.antt =====
-- What a storage server changes in the file table of the name server: where its files are, when it
-- registers, and their sizes, when it reports them.
use mathlib.Core.Option
use distributed_concurrent_f.Prelude.{
  ℕ, Bool, true, false, List, [], ◌∷◌, ◌≡◌, refl, arith, Bytes, codes, Option, none, some,
  Option-cases, inl, inr, ℤ, str_eq, str_eq_refl, str_eq_iff, lists, int_eq_iff, take,
  if◌then◌else◌,
}
use distributed_concurrent_f.CString.{split_string, atoi}
use distributed_concurrent_f.HashTable.{HashTable, ht_get, ht_modify}
use distributed_concurrent_f.HashTable.Chain.{FileMetadata}
use distributed_concurrent_f.HashTable.Laws.{get-modify}
use distributed_concurrent_f.NameServer.{NameServer, add_ss, nm_save_files}
use distributed_concurrent_f.NameServer.Access.{is_connected}
use distributed_concurrent_f.NameServer.SsHandler.{
  move, relocate, register_ss, set_stats, info_file, nm_handle_ss_message,
}

move_twice :
    (o : Option FileMetadata) (ip : Bytes) (port : ℤ)
    → Option.map (move ip port) (Option.map (move ip port) o) ≡ Option.map (move ip port) o
move_twice none ip port = refl
move_twice (some m) ip port = refl

pub get-relocate :
    (t : HashTable) (ip : Bytes) (port : ℤ) (files : List Bytes) (q : Bytes)
    → ht_get (relocate t ip port files) q
      ≡ (if lists files q then Option.map (move ip port) (ht_get t q) else ht_get t q)
unfolding relocate
get-relocate t ip port [] q = refl
get-relocate t ip port (f ∷ files) q = ground (
  arith,
  get-relocate (ht_modify t f (move ip port)) ip port files q,
  get-modify (move ip port) (λ m. refl) t f q,
  move_twice (ht_get t q) ip port,
)

-- The file is known, and its storage server is connected.
abbrev pub online : NameServer → Bytes → Bool
online nm q = elim (ht_get nm.file_table q) [
  | none ↦ false
  | some m ↦ is_connected nm.ss_list m.ss_ip m.ss_client_port
]

-- After a storage server has registered, each file that it lists and that the name server knows is
-- online.
pub register_ss-online :
    (nm : NameServer) (sock : ℕ) (ip : Bytes) (port : ℤ) (files : List Bytes) (q : Bytes)
    (m : FileMetadata)
    → lists files q ≡ true
    → ht_get nm.file_table q ≡ some m
    → online (register_ss nm sock ip port files) q ≡ true
unfolding register_ss add_ss
register_ss-online nm sock ip port files q m listed e = ground (
  arith,
  e,
  listed,
  get-relocate nm.file_table ip port files q,
  str_eq_refl (take 15 ip),
  int_eq_iff port port,
)

pub get-info_file :
    (nm : NameServer) (f q : Bytes) (change : FileMetadata → FileMetadata)
    → ((m : FileMetadata) → (change m).filename ≡ m.filename)
    → ht_get (info_file nm f change).file_table q
      ≡ (if str_eq q f then Option.map change (ht_get nm.file_table q) else ht_get nm.file_table q)
unfolding nm_save_files
get-info_file nm f q change keeps =
    let set = get-modify change keeps nm.file_table f q in
    elim (Option-cases (ht_get nm.file_table f)) [
      | inl e ↦ ground (arith, e, str_eq_iff q f)
      | inr (m, e) ↦ ground (arith, e, set)
    ]

-- A message `INFO_UPDATE` of five words sets the numbers of its file, and changes no other file.
pub nm_handle_ss_message-sets :
    (nm : NameServer) (buffer f size words chars q : Bytes) (now : ℤ)
    → split_string buffer 32 ≡ codes "INFO_UPDATE" ∷ f ∷ size ∷ words ∷ chars ∷ []
    → ht_get (nm_handle_ss_message nm buffer now).file_table q ≡ (
        if str_eq q f
        then Option.map
            (set_stats (atoi size) (atoi words) (atoi chars) now)
            (ht_get nm.file_table q)
        else ht_get nm.file_table q)
unfolding nm_handle_ss_message
nm_handle_ss_message-sets nm buffer f size words chars q now e =
    rw (e, str_eq_refl (codes "INFO_UPDATE"))
      (get-info_file nm f q (set_stats (atoi size) (atoi words) (atoi chars) now) (λ m. refl))
