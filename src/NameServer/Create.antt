-- ===== src/NameServer/Create.antt =====
-- CREATE and DELETE of name_server/client_handler.c on the file table.
use distributed_concurrent_f.Prelude.{
  ℕ, ◌≤◌, Bool, ◌&&◌, ◌||◌, ◌≡◌, arith, Bytes, Option, none, some, List-cases, Option-cases, inl,
  inr, length, max_name, copy_name_short, str_eq, str_eq_iff, ◌==◌, ==_iff, if◌then◌else◌,
}
use distributed_concurrent_f.AccessList.{create_access_node, update_access, add_access, get_access}
use distributed_concurrent_f.HashTable.{ht_insert, ht_get}
use distributed_concurrent_f.HashTable.Chain.{FileMetadata}
use distributed_concurrent_f.HashTable.Laws.{IsTable, get-insert, ht_insert-IsTable}
use distributed_concurrent_f.NameServer.{
  NameServer, StorageServerInfo, get_ss_for_new_file, nm_save_files, check_access,
}
use distributed_concurrent_f.NameServer.Handlers.{Times, new_metadata, create_on, handle_create}

-- The permission `perm` allows what needs `wanted`: who may write may read.
abbrev pub allows : ℕ → ℕ → Bool
allows perm wanted =
    (wanted == b'R' && (perm == b'R' || perm == b'W')) || (wanted == b'W' && perm == b'W')

-- A new file is its creator's, whose name is not cut: the creator may do all, nobody else anything.
pub check-new_metadata :
    (filename username q : Bytes) (ss : StorageServerInfo) (times : Times) (wanted : ℕ)
    → length username ≤ max_name
    → check_access (new_metadata filename username ss times) q wanted ≡ str_eq q username
unfolding check_access new_metadata add_access update_access create_access_node get_access
check-new_metadata filename username q ss times wanted h = ground (
  arith,
  copy_name_short username h,
  str_eq_iff username q,
  str_eq_iff q username,
  ==_iff wanted b'R',
  ==_iff wanted b'W',
)

pub save_table : (nm : NameServer) → (nm_save_files nm).file_table ≡ nm.file_table
unfolding nm_save_files
save_table nm = ground arith

turn_table : (nm : NameServer) → (get_ss_for_new_file nm).1.file_table ≡ nm.file_table
unfolding get_ss_for_new_file
turn_table nm = elim (List-cases nm.ss_list) [
  | inl e ↦ ground (arith, e)
  | inr (s, l, e) ↦ ground (arith, e)
]

create_table :
    (nm : NameServer) (sock : ℕ) (username filename : Bytes) (times : Times)
    (ss : StorageServerInfo)
    → (create_on nm sock username filename times ss).file_table
      ≡ (ht_insert nm.file_table (new_metadata filename username ss times)).1
unfolding create_on nm_save_files
create_table nm sock username filename times ss = ground arith

-- What CREATE leaves in the table: nothing changes if the name is taken or no server is connected.
abbrev pub creates : NameServer → Bytes → Bytes → Times → Option FileMetadata
creates nm username filename times = elim (ht_get nm.file_table filename) [
  | some old ↦ none
  | none ↦ elim (get_ss_for_new_file nm).0 [
    | none ↦ none
    | some ss ↦ some (new_metadata filename username ss times)
  ]
]

pub creates_table :
    (nm : NameServer) (sock : ℕ) (username filename : Bytes) (times : Times)
    → (handle_create nm sock username filename times).file_table
      ≡ elim (creates nm username filename times) [
        | none ↦ nm.file_table
        | some m ↦ (ht_insert nm.file_table m).1
      ]
unfolding handle_create
creates_table nm sock username filename times =
    elim (Option-cases (ht_get nm.file_table filename)) [
      | inr (old, e) ↦ ground (arith, e)
      | inl e ↦ elim (Option-cases (get_ss_for_new_file nm).0) [
        | inl n ↦ ground (arith, e, n, turn_table nm)
        | inr (ss, n) ↦ ground (
          arith,
          e,
          n,
          turn_table nm,
          create_table (get_ss_for_new_file nm).1 sock username filename times ss,
        )
      ]
    ]

-- CREATE of a name that is not cut: where the name is free and a server is connected, the name is bound
-- to new metadata, and otherwise no binding changes; no other name changes.
pub get-create :
    (nm : NameServer) (sock : ℕ) (username filename q : Bytes) (times : Times)
    → length filename ≤ max_name
    → ht_get (handle_create nm sock username filename times).file_table q
      ≡ elim (creates nm username filename times) [
        | none ↦ ht_get nm.file_table q
        | some m ↦ if str_eq q filename then some m else ht_get nm.file_table q
      ]
unfolding handle_create new_metadata
get-create nm sock username filename q times h =
    elim (Option-cases (ht_get nm.file_table filename)) [
      | inr (old, e) ↦ ground (arith, e)
      | inl e ↦ elim (Option-cases (get_ss_for_new_file nm).0) [
        | inl n ↦ ground (arith, e, n, turn_table nm)
        | inr (ss, n) ↦
            let m = new_metadata filename username ss times in
            let name : m.filename ≡ filename = copy_name_short filename h in
            ground (
              arith,
              e,
              n,
              name,
              turn_table nm,
              create_table (get_ss_for_new_file nm).1 sock username filename times ss,
              get-insert nm.file_table m q,
            )
      ]
    ]

pub create-IsTable :
    (nm : NameServer) (sock : ℕ) (username filename : Bytes) (times : Times)
    → IsTable nm.file_table
    → IsTable (handle_create nm sock username filename times).file_table
create-IsTable nm sock username filename times v =
    elim (Option-cases (creates nm username filename times)) [
      | inl e ↦ rw (creates_table nm sock username filename times, e) v
      | inr (m, e) ↦
          rw (creates_table nm sock username filename times, e)
            (ht_insert-IsTable nm.file_table m v)
    ]
