-- ===== src/Trie/Delete.antt =====
-- `trie_delete` of common/data_structures.c: what goes away with a name.
use distributed_concurrent_f.Prelude.{
  ℕ, Bool, true, false, not, ◌&&◌, ◌||◌, [], ◌∷◌, ◌++◌, ◌≡◌, refl, arith, Bytes, str_eq,
}
use distributed_concurrent_f.Trie.{
  TrieNode, null, node, alphabet_size, trie_search, any_child, trie_delete_helper, trie_delete,
}

-- The node that a name leads to has children.
unfoldable pub has_children : TrieNode → Bytes → Bool
has_children null key = false
has_children (node e children) [] = any_child alphabet_size children
has_children (node e children) (c ∷ s) = has_children (children c) s

helper_sound :
    (t : TrieNode) (key q : Bytes)
    → trie_search (trie_delete_helper t key).1 q ≡ true
    → (trie_search t q ≡ true) × (str_eq q key ≡ false)
unfolding trie_search trie_delete_helper str_eq
helper_sound null key q h = cc
helper_sound (node e children) [] [] h = ground arith
helper_sound (node e children) [] (d ∷ q) h = ground arith
helper_sound (node e children) (c ∷ s) [] h = ground arith
helper_sound (node e children) (c ∷ s) (d ∷ q) h = ground (arith, helper_sound (children c) s q)

-- The name is gone after a deletion, and no name comes in.
pub trie_delete_sound :
    (t : TrieNode) (key q : Bytes)
    → trie_search (trie_delete t key) q ≡ true
    → (trie_search t q ≡ true) × (str_eq q key ≡ false)
unfolding trie_delete
trie_delete_sound t key q h = helper_sound t key q h

-- A node is given up only if the name was there and its own node has no children.
flag_needs :
    (t : TrieNode) (key : Bytes)
    → (trie_delete_helper t key).0 ≡ true
    → (has_children t key ≡ false) × (trie_search t key ≡ true)
unfolding trie_search trie_delete_helper has_children
flag_needs null key h = cc
flag_needs (node e children) [] h = ground arith
flag_needs (node e children) (c ∷ s) h = ground (arith, flag_needs (children c) s)

helper_keeps :
    (t : TrieNode) (key q : Bytes)
    → (has_children t key || not (trie_search t key)) ≡ true
    → trie_search (trie_delete_helper t key).1 q ≡ (not (str_eq q key) && trie_search t q)
unfolding trie_search trie_delete_helper has_children str_eq
helper_keeps null key q h = ground arith
helper_keeps (node e children) [] [] h = ground arith
helper_keeps (node e children) [] (d ∷ q) h = ground arith
helper_keeps (node e children) (c ∷ s) [] h = ground arith
helper_keeps (node e children) (c ∷ s) (d ∷ q) h =
    ground (arith, helper_keeps (children c) s q, flag_needs (children c) s)

-- Where the node of the deleted name has children, or the name is not there, every other name
-- stays.
pub trie_delete_keeps :
    (t : TrieNode) (key q : Bytes)
    → (has_children t key || not (trie_search t key)) ≡ true
    → trie_search (trie_delete t key) q ≡ (not (str_eq q key) && trie_search t q)
unfolding trie_delete
trie_delete_keeps t key q h = helper_keeps t key q h

-- Of the names that a test accepts, none is a proper prefix of the given one.
abbrev pub Clear : (Bytes → Bool) → Bytes → Type 0
Clear stored [] = Unit
Clear stored (c ∷ s) = (stored [] ≡ false) × Clear (λ x. stored (c ∷ x)) s

flag_set :
    (t : TrieNode) (key : Bytes)
    → trie_search t key ≡ true
    → has_children t key ≡ false
    → Clear (trie_search t) key
    → (trie_delete_helper t key).0 ≡ true
unfolding trie_search trie_delete_helper has_children
flag_set null key h leaf clear = cc
flag_set (node e children) [] h leaf clear = ground arith
flag_set (node e children) (c ∷ s) h leaf clear =
    let rec = flag_set (children c) s h leaf clear.1 in rw (rec, clear.0)

helper_sweeps :
    (t : TrieNode) (c : ℕ) (p r q : Bytes)
    → trie_search t (c ∷ (p ++ r)) ≡ true
    → has_children t (c ∷ (p ++ r)) ≡ false
    → Clear (λ x. trie_search t (c ∷ (p ++ x))) r
    → trie_search (trie_delete_helper t (c ∷ (p ++ r))).1 (c ∷ (p ++ q)) ≡ false
unfolding trie_search trie_delete_helper has_children
helper_sweeps null c p r q h leaf clear = refl
helper_sweeps (node e children) c [] r q h leaf clear =
    let rec = flag_set (children c) r h leaf clear in ground arith
helper_sweeps (node e children) c (d ∷ p) r q h leaf clear =
    ground (arith, helper_sweeps (children c) d p r q h leaf clear)

-- Where the deleted name is `c p r`, no longer name runs through it, and no stored name stands
-- between `c p` and it, every name that starts with `c p` goes away with it.
pub trie_delete_sweeps :
    (t : TrieNode) (c : ℕ) (p r q : Bytes)
    → trie_search t (c ∷ (p ++ r)) ≡ true
    → has_children t (c ∷ (p ++ r)) ≡ false
    → Clear (λ x. trie_search t (c ∷ (p ++ x))) r
    → trie_search (trie_delete t (c ∷ (p ++ r))) (c ∷ (p ++ q)) ≡ false
unfolding trie_delete
trie_delete_sweeps t c p r q h leaf clear = helper_sweeps t c p r q h leaf clear
