-- ===== src/Trie.antt =====
-- The trie of file names in common/data_structures.c. `null` is the NULL pointer, and the array
-- `children` is a function of the index. The mutex makes each operation one step; a node that is freed
-- is the one that its parent's entry is cleared of.
pub mod Insert
pub mod Delete
pub mod Listing
use distributed_concurrent_f.Prelude.{
  ℕ, zero, suc, ◌+◌, Bool, true, false, not, ◌||◌, [], ◌∷◌, ◌++◌, Bytes, take, ◌==◌, if◌then◌else◌,
}

pub data TrieNode : Type 0 where
  null : TrieNode
  node : (is_end_of_file : Bool) → (children : ℕ → TrieNode) → TrieNode

-- `TRIE_ALPHABET_SIZE`
abbrev pub alphabet_size : ℕ
alphabet_size = 256

unfoldable pub trie_create_node : TrieNode
trie_create_node = node false (λ _. null)

-- `children[c] = t`
abbrev pub put : (ℕ → TrieNode) → ℕ → TrieNode → ℕ → TrieNode
put children c t i = if i == c then t else children i

-- A child, which is created where there is none.
unfoldable pub or_create : TrieNode → TrieNode
or_create null = trie_create_node
or_create (node e children) = node e children

-- The walk from a node; the root is never NULL.
unfoldable pub trie_insert : TrieNode → Bytes → TrieNode
unfolding or_create trie_create_node
trie_insert null filename = null
trie_insert (node e children) [] = node true children
trie_insert (node e children) (c ∷ s) =
    node e (put children c (trie_insert (or_create (children c)) s))

unfoldable pub trie_search : TrieNode → Bytes → Bool
trie_search null filename = false
trie_search (node e children) [] = e
trie_search (node e children) (c ∷ s) = trie_search (children c) s

unfoldable pub is_node : TrieNode → Bool
is_node null = false
is_node (node e children) = true

-- `for (i = 0; i < n; i++) if (node->children[i])`
unfoldable pub any_child : ℕ → (ℕ → TrieNode) → Bool
unfolding is_node
any_child zero children = false
any_child (suc n) children = is_node (children n) || any_child n children

-- The flag that tells the caller to free the node, and the node as it is left.
-- (`any_child` is kept shut here: unfolded, its 256 rounds slow every proof down.)
unfoldable pub trie_delete_helper : TrieNode → Bytes → Bool × TrieNode
trie_delete_helper null key = (false, null)
trie_delete_helper (node e children) [] =
    if e
    then (not (any_child alphabet_size children), node false children)
    else (false, node e children)
trie_delete_helper (node e children) (c ∷ s) =
    let (gone, child) = trie_delete_helper (children c) s in
    if gone then (not e, node e (put children c null)) else (false, node e (put children c child))

unfoldable pub trie_delete : TrieNode → Bytes → TrieNode
unfolding trie_delete_helper
trie_delete root filename = (trie_delete_helper root filename).1

-- `snprintf(next_prefix, sizeof(next_prefix), "%s%c", prefix, (char)i)`; a NUL ends the text.
unfoldable pub next_prefix : Bytes → ℕ → Bytes
next_prefix prefix i = take 255 (if i == 0 then prefix else prefix ++ i ∷ [])

-- The loop over the children from index `i` on; `appended j` is what the call for child `j` appends.
unfoldable pub children_loop : ℕ → ℕ → (ℕ → Bytes) → Bytes
children_loop zero i appended = []
children_loop (suc n) i appended = appended i ++ children_loop n (i + 1) appended

-- What `_trie_get_all_recursive` appends to the buffer.
unfoldable pub trie_get_all_recursive : TrieNode → Bytes → Bytes
unfolding next_prefix
trie_get_all_recursive null prefix = []
trie_get_all_recursive (node e children) prefix =
    (if e then prefix ++ 10 ∷ [] else [])
    ++ children_loop alphabet_size 0
        (λ i. trie_get_all_recursive (children i) (next_prefix prefix i))
