-- ===== src/Tests/Tables.antt =====
-- The trie, the table of files and the access list.
use distributed_concurrent_f.Prelude.{
  ◌≤◌, true, false, not, ◌&&◌, ◌||◌, List, [], ◌∷◌, ◌++◌, ◌≡◌, refl, arith, codes, length, max_name,
  copy_name, pos, str_eq, Bytes, lists, All, if◌then◌else◌,
}
use distributed_concurrent_f.Trie.{
  TrieNode, trie_create_node, or_create, is_node, any_child, trie_insert, trie_search,
  trie_delete_helper, trie_delete, trie_get_all_recursive,
}
use distributed_concurrent_f.CString.Lines.{unlines}
use distributed_concurrent_f.Trie.Listing.{occurrences, IsName, Stores}
use distributed_concurrent_f.Trie.Listing.Inserted.{insert_all, trie_get_all_recursive-insert}
use distributed_concurrent_f.Trie.Delete.{
  has_children, Clear, trie_delete_keeps, trie_delete_sweeps,
}
use distributed_concurrent_f.HashTable.{HashTable, ht_create, ht_insert}
use distributed_concurrent_f.HashTable.Chain.{FileMetadata}
use distributed_concurrent_f.AccessList.{AccessNode, create_access_node, add_access, update_access}
use distributed_concurrent_f.AccessList.Laws.{has_user, is_unique}

abbrev trie : TrieNode
trie =
    trie_insert (trie_insert (trie_insert trie_create_node (codes "a")) (codes "bc")) (codes "bd")

-- One name twice, and one that another starts with.
abbrev inserted : List Bytes
inserted = codes "a" ∷ codes "ab" ∷ codes "a" ∷ []

names-IsName : All IsName inserted
names-IsName = omega arith

nothing_stored : Stores trie_create_node
unfolding trie_create_node trie_search
nothing_stored [] e = cc
nothing_stored (c ∷ q) e = cc

trie_get_all_recursive-insert_example :
    (l : List Bytes) × (trie_get_all_recursive (insert_all trie_create_node inserted) []
      ≡ unlines l)
    × ((q : Bytes)
        → occurrences l q ≡ (if lists inserted q || trie_search trie_create_node q then 1 else 0))
unfolding trie_create_node
trie_get_all_recursive-insert_example =
    trie_get_all_recursive-insert trie_create_node inserted tt nothing_stored names-IsName

found : trie_search (trie_delete trie (codes "bc")) (codes "a") ≡ true
unfolding trie_search trie_insert or_create trie_create_node trie_delete trie_delete_helper
    any_child is_node
found = refl

inner : (has_children trie (codes "b") || not (trie_search trie (codes "b"))) ≡ true
unfolding has_children trie_search trie_insert or_create trie_create_node any_child is_node
inner = refl

trie_delete_keeps_example :
    trie_search (trie_delete trie (codes "b")) (codes "bc")
    ≡ (not (str_eq (codes "bc") (codes "b")) && trie_search trie (codes "bc"))
trie_delete_keeps_example = trie_delete_keeps trie (codes "b") (codes "bc") inner

stored : trie_search trie (codes "bc") ≡ true
unfolding trie_search trie_insert or_create trie_create_node
stored = refl

leaf : has_children trie (codes "bc") ≡ false
unfolding has_children trie_insert or_create trie_create_node any_child is_node
leaf = refl

clear : Clear (λ x. trie_search trie (b'b' ∷ ([] ++ x))) (codes "c")
unfolding trie_search trie_insert or_create trie_create_node
clear = (refl, tt)

trie_delete_sweeps_example : trie_search (trie_delete trie (codes "bc")) (codes "bd") ≡ false
trie_delete_sweeps_example =
    trie_delete_sweeps trie b'b' [] (codes "c") (codes "d") stored leaf clear

abbrev pub report : FileMetadata
report = record {
  filename = codes "report";
  owner = codes "ann";
  access_list = [];
  ss_ip = codes "10.0.0.1";
  ss_client_port = pos 9000;
  size = pos 0;
  word_count = pos 0;
  char_count = pos 0;
  created_at = pos 0;
  last_modified = pos 0;
  last_accessed = pos 0;
}

abbrev pub table : HashTable
table = (ht_insert ht_create report).1

abbrev users : List AccessNode
users = add_access (add_access [] (codes "ann") b'W') (codes "bob") b'R'

bob_short : length (codes "bob") ≤ max_name
bob_short = omega arith

users-Unique : is_unique users ≡ true
unfolding is_unique has_user add_access update_access create_access_node copy_name str_eq
users-Unique = refl

abbrev pub bob_reads : AccessNode
bob_reads = record { username = codes "bob"; permission = b'R' }
