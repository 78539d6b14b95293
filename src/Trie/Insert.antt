-- ===== src/Trie/Insert.antt =====
-- `trie_insert` and `trie_search` of common/data_structures.c: the trie is a set of names.
use distributed_concurrent_f.Prelude.{◌||◌, [], ◌∷◌, ◌≡◌, refl, arith, Bytes, str_eq}
use distributed_concurrent_f.Trie.{
  TrieNode, null, node, trie_create_node, or_create, trie_insert, trie_search,
}

search-or_create : (t : TrieNode) (q : Bytes) → trie_search (or_create t) q ≡ trie_search t q
unfolding trie_search or_create trie_create_node
search-or_create null [] = refl
search-or_create null (c ∷ q) = refl
search-or_create (node e children) q = refl

abbrev pub Exists : TrieNode → Type 0
Exists null = ⊥
Exists (node e children) = Unit

or_create-Exists : (t : TrieNode) → Exists (or_create t)
unfolding or_create trie_create_node
or_create-Exists null = tt
or_create-Exists (node e children) = tt

-- After an insertion into a trie that is not NULL, it holds the new name and the names that it
-- held.
pub search-insert :
    (t : TrieNode) (filename q : Bytes)
    → Exists t
    → trie_search (trie_insert t filename) q ≡ (str_eq q filename || trie_search t q)
unfolding trie_search trie_insert str_eq
search-insert null filename q h = absurd h
search-insert (node e children) [] [] h = refl
search-insert (node e children) [] (d ∷ q) h = refl
search-insert (node e children) (c ∷ s) [] h = refl
search-insert (node e children) (c ∷ s) (d ∷ q) h = ground (
  arith,
  search-insert (or_create (children c)) s q (or_create-Exists (children c)),
  search-or_create (children c) q,
)
