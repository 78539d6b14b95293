-- ===== src/Tests/Names.antt =====
-- The name server with one file and one storage server.
use distributed_concurrent_f.Prelude.{
  ◌≤◌, true, false, [], ◌∷◌, ◌≡◌, refl, arith, codes, length, max_name, pos, none, some, str_eq,
}
use distributed_concurrent_f.AccessList.Laws.{has_user, is_unique}
use distributed_concurrent_f.Trie.{trie_create_node}
use distributed_concurrent_f.HashTable.{
  ht_create, ht_insert, ht_get, hash_function, hash_loop, hash_round, sign_extend,
}
use distributed_concurrent_f.HashTable.Chain.{FileMetadata, chain_find}
use distributed_concurrent_f.HashTable.Laws.{IsTable, ht_create-IsTable, ht_insert-IsTable}
use distributed_concurrent_f.NameServer.{NameServer, StorageServerInfo}
use distributed_concurrent_f.NameServer.Handlers.{
  Times, handle_create, handle_delete, handle_read_write_stream,
}
use distributed_concurrent_f.NameServer.Delete.{delete-create}
use distributed_concurrent_f.NameServer.Access.{Directs, handle_read_write_stream_lem}
use distributed_concurrent_f.Tests.Tables.{report, table, bob_reads}

abbrev storage : StorageServerInfo
storage = record { socket = 4; ip = codes "10.0.0.1"; client_port = pos 9000 }

abbrev pub nm : NameServer
nm = record {
  file_table = table;
  file_trie = trie_create_node;
  client_list = [];
  ss_list = storage ∷ [];
  all_users_list = codes "ann" ∷ [];
  next_ss_index = 3;
  can_save = true;
  saved_files = none;
  saved_users = none;
  sends = [];
}

abbrev pub times : Times
times = record { created_at = pos 5; last_modified = pos 5; last_accessed = pos 5 }

pub table-IsTable : IsTable table
table-IsTable = ht_insert-IsTable ht_create report ht_create-IsTable

pub report_there : ht_get table (codes "report") ≡ some report
unfolding ht_get ht_insert ht_create chain_find hash_function hash_loop hash_round sign_extend
    str_eq
report_there = refl

notes_free : ht_get table (codes "notes") ≡ none
unfolding ht_get ht_insert ht_create chain_find hash_function hash_loop hash_round sign_extend
    str_eq
notes_free = refl

notes_short : length (codes "notes") ≤ max_name
notes_short = omega arith

bob_short : length (codes "bob") ≤ max_name
bob_short = omega arith

delete-create_example :
    ht_get
      (handle_delete
        (handle_create nm 7 (codes "bob") (codes "notes") times)
        7
        (codes "bob")
        (codes "notes")).file_table
      (codes "report")
    ≡ ht_get nm.file_table (codes "report")
delete-create_example =
    delete-create nm 7 (codes "bob") (codes "notes") (codes "report") times table-IsTable
      notes_short bob_short notes_free

pub not_bob : str_eq (codes "ann") (codes "bob") ≡ false
unfolding str_eq
not_bob = refl

abbrev shared : FileMetadata
shared = record report { access_list = bob_reads ∷ [] }

shared-Unique : is_unique shared.access_list ≡ true
unfolding is_unique has_user
shared-Unique = refl

handle_read_write_stream_lem_example :
    Directs nm 7
      (codes "ann")
      (codes "WRITE")
      (codes "report")
      (handle_read_write_stream nm 7 (codes "ann") (codes "WRITE" ∷ codes "report" ∷ []) (pos 9))
handle_read_write_stream_lem_example =
    handle_read_write_stream_lem nm 7 (codes "ann") (codes "WRITE") (codes "report") [] (pos 9)
