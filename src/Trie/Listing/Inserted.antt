-- ===== src/Trie/Listing/Inserted.antt =====
-- What a trie lists once names have been inserted with `trie_insert`.
use distributed_concurrent_f.Prelude.{
  ◌||◌, List, [], ◌∷◌, ◌≡◌, ◌∙◌, refl, arith, Bytes, str_eq, str_eq→eq, lists, if◌then◌else◌, All,
  Bool-cases, inl, inr,
}
use distributed_concurrent_f.CString.Lines.{unlines}
use distributed_concurrent_f.Trie.{
  TrieNode, null, node, trie_insert, trie_search, trie_get_all_recursive,
}
use distributed_concurrent_f.Trie.Insert.{Exists, search-insert}
use distributed_concurrent_f.Trie.Listing.{occurrences, IsName, Stores}
use distributed_concurrent_f.Trie.Listing.Text.{trie_get_all_recursive-names}

-- The names are inserted one after the other.
abbrev pub insert_all : TrieNode → List Bytes → TrieNode
insert_all t [] = t
insert_all t (w ∷ names) = insert_all (trie_insert t w) names

insert-Exists : (t : TrieNode) (w : Bytes) → Exists t → Exists (trie_insert t w)
unfolding trie_insert
insert-Exists null w h = absurd h
insert-Exists (node e children) [] h = tt
insert-Exists (node e children) (c ∷ s) h = tt

search-insert_all :
    (t : TrieNode) (names : List Bytes) (q : Bytes)
    → Exists t
    → trie_search (insert_all t names) q ≡ (lists names q || trie_search t q)
search-insert_all t [] q h = refl
search-insert_all t (w ∷ names) q h = ground (
  arith,
  search-insert_all (trie_insert t w) names q (insert-Exists t w h),
  search-insert t w q h,
)

insert-Stores :
    (t : TrieNode) (w : Bytes) → Exists t → IsName w → Stores t → Stores (trie_insert t w)
insert-Stores t w there name h q e = elim (Bool-cases (str_eq q w)) [
  | inl same ↦ rw (str_eq→eq q w same) name
  | inr other ↦ h q (ground (arith, search-insert t w q there))
]

insert_all-Stores :
    (t : TrieNode) (names : List Bytes)
    → Exists t
    → All IsName names
    → Stores t
    → Stores (insert_all t names)
insert_all-Stores t [] there named h = h
insert_all-Stores t (w ∷ names) there named h =
    insert_all-Stores (trie_insert t w) names (insert-Exists t w there) named.1
      (insert-Stores t w there named.0 h)

-- The listing of a trie into which names have been inserted is lines of names: each name that was
-- inserted, and each that was stored before, stands there once, however often it came, and no other
-- name. The names have no NUL and at most 255 bytes.
pub trie_get_all_recursive-insert :
    (t : TrieNode) (names : List Bytes)
    → Exists t
    → Stores t
    → All IsName names
    → (l : List Bytes) × (trie_get_all_recursive (insert_all t names) [] ≡ unlines l)
      × ((q : Bytes) → occurrences l q ≡ (if lists names q || trie_search t q then 1 else 0))
trie_get_all_recursive-insert t names there h named =
    let (l, text, count) =
      trie_get_all_recursive-names (insert_all t names) (insert_all-Stores t names there named h) in
    (l, text, λ q. count q ∙ rw (search-insert_all t names q there))
