-- ===== src/Trie/Listing/Text.antt =====
-- The text that `_trie_get_all_recursive` writes is lines of names, if the prefixes fit their buffers.
use mathlib.Core.List.{map}
use distributed_concurrent_f.Prelude.{
  ℕ, zero, suc, ◌+◌, ◌≤◌, Bool, true, false, ◌&&◌, List, [], ◌∷◌, ◌++◌, append_assoc, append-nil,
  ◌≡◌, ◌≢◌, ◌∙◌, refl, sym, ap, arith, Bytes, ◌==◌, ltb, if◌then◌else◌, length, length-append,
  take_all, Bool-cases, inl, inr,
}
use distributed_concurrent_f.CString.Lines.{unlines}
use distributed_concurrent_f.Trie.{
  TrieNode, null, node, alphabet_size, trie_search, next_prefix, children_loop,
  trie_get_all_recursive,
}
use distributed_concurrent_f.Trie.Listing.{
  occurrences, IsName, Stores, name_loop, names_below, own, branches, occurrences-below,
}

children_loop_nil :
    (n i : ℕ) (appended : ℕ → Bytes) → ((j : ℕ) → appended j ≡ []) → children_loop n i appended ≡ []
unfolding children_loop
children_loop_nil zero i appended h = refl
children_loop_nil (suc n) i appended h = rw (h i) (children_loop_nil n (i + 1) appended h)

name_loop_nil :
    (n i : ℕ) (names : ℕ → List Bytes) → ((j : ℕ) → names j ≡ []) → name_loop n i names ≡ []
unfolding name_loop
name_loop_nil zero i names h = refl
name_loop_nil (suc n) i names h = rw (h i) (name_loop_nil n (i + 1) names h)

-- Where nothing is stored, nothing is listed.
text_none :
    (t : TrieNode) (prefix : Bytes)
    → ((q : Bytes) → trie_search t q ≡ false)
    → trie_get_all_recursive t prefix ≡ []
unfolding trie_get_all_recursive trie_search
text_none null prefix h = refl
text_none (node e children) prefix h = rw (h []) (
    children_loop_nil alphabet_size 0 _
      (λ j. text_none (children j) (next_prefix prefix j) (λ q. h (j ∷ q))))

names_none : (t : TrieNode) → ((q : Bytes) → trie_search t q ≡ false) → names_below t ≡ []
unfolding names_below trie_search own
names_none null h = refl
names_none (node e children) h = rw (h []) (
    name_loop_nil alphabet_size 0 (branches children)
      (λ j. rw (names_none (children j) (λ q. h (j ∷ q))) refl))

-- The names of a list behind a prefix, one to a line.
abbrev lines_behind : Bytes → List Bytes → Bytes
lines_behind prefix l = unlines (map (λ w. prefix ++ w) l)

lines-append :
    (prefix : Bytes) (l m : List Bytes)
    → lines_behind prefix (l ++ m) ≡ lines_behind prefix l ++ lines_behind prefix m
unfolding unlines
lines-append prefix [] m = refl
lines-append prefix (w ∷ l) m = rw (lines-append prefix l m) (simp append_assoc)

lines-branch :
    (prefix : Bytes) (j : ℕ) (l : List Bytes)
    → lines_behind (prefix ++ j ∷ []) l ≡ lines_behind prefix (map (λ w. j ∷ w) l)
unfolding unlines
lines-branch prefix j [] = refl
lines-branch prefix j (w ∷ l) = rw (lines-branch prefix j l) (simp append_assoc)

loop_lines :
    (n i : ℕ) (appended : ℕ → Bytes) (prefix : Bytes) (names : ℕ → List Bytes)
    → ((j : ℕ) → appended j ≡ lines_behind prefix (names j))
    → children_loop n i appended ≡ lines_behind prefix (name_loop n i names)
unfolding children_loop name_loop unlines
loop_lines zero i appended prefix names h = refl
loop_lines (suc n) i appended prefix names h =
    rw (h i, loop_lines n (i + 1) appended prefix names h)
      (sym (lines-append prefix (names i) (name_loop n (i + 1) names)))

-- What is stored below a prefix fits the buffers of the prefixes.
abbrev Fits : TrieNode → Bytes → Type 0
Fits t prefix = (q : Bytes) → trie_search t q ≡ true → IsName q × (length prefix + length q ≤ 255)

false_of_ne : (b : Bool) → b ≢ true → b ≡ false
false_of_ne true h = absurd (h refl)
false_of_ne false h = refl

grown :
    (prefix : Bytes) (j : ℕ)
    → (j == 0) ≡ false
    → length (prefix ++ j ∷ []) ≤ 255
    → next_prefix prefix j ≡ prefix ++ j ∷ []
unfolding next_prefix
grown prefix j h fits = rw h (take_all 255 (prefix ++ j ∷ []) fits)

-- One child, whose names come behind its byte.
branch_lines :
    (child : TrieNode) (prefix : Bytes) (j : ℕ)
    → ((p : Bytes)
        → Fits child p
        → trie_get_all_recursive child p ≡ lines_behind p (names_below child))
    → ((q : Bytes)
        → trie_search child q ≡ true
        → IsName (j ∷ q) × (length prefix + length (j ∷ q) ≤ 255))
    → trie_get_all_recursive child (next_prefix prefix j)
      ≡ lines_behind prefix (map (λ w. j ∷ w) (names_below child))
unfolding unlines
branch_lines child prefix j ih h = elim (Bool-cases (ltb 0 j && ltb (length prefix) 255)) [
  | inl room ↦
      let longer : length (prefix ++ j ∷ []) ≡ length prefix + 1 =
        omega (arith, length-append prefix (j ∷ [])) in
      let next : next_prefix prefix j ≡ prefix ++ j ∷ [] =
        grown prefix j (ground arith) (ground (arith, longer)) in
      rw next (
        ih (prefix ++ j ∷ [])
          (λ q e. (((h q e).0.0.1, omega (arith, (h q e).0.1)), omega (arith, (h q e).1, longer)))
        ∙ lines-branch prefix j (names_below child))
  | inr full ↦
      let nothing : (q : Bytes) → trie_search child q ≡ false =
        λ q. false_of_ne (trie_search child q) (λ e. ground (arith, (h q e).0.0.0, (h q e).1)) in
      rw (names_none child nothing) (text_none child (next_prefix prefix j) nothing)
]

lines-own :
    (prefix : Bytes) (e : Bool)
    → (if e then prefix ++ 10 ∷ [] else []) ≡ lines_behind prefix (own e)
unfolding unlines own
lines-own prefix true = rw append-nil refl
lines-own prefix false = refl

text-names :
    (t : TrieNode) (prefix : Bytes)
    → Fits t prefix
    → trie_get_all_recursive t prefix ≡ lines_behind prefix (names_below t)
unfolding trie_get_all_recursive names_below unlines trie_search
text-names null prefix h = refl
text-names (node e children) prefix h =
    rw
      (
        lines-own prefix e,
        loop_lines alphabet_size 0 (λ i. trie_get_all_recursive (children i) (next_prefix prefix i))
            prefix (branches children)
            (λ j.
              branch_lines (children j) prefix j (λ p. text-names (children j) p) (λ q. h (j ∷ q))),
      )
      (sym (lines-append prefix (own e) (name_loop alphabet_size 0 (branches children))))

map_empty : (l : List Bytes) → map (λ w. [] ++ w) l ≡ l
map_empty [] = refl
map_empty (w ∷ l) = rw (map_empty l) refl

-- The listing of a trie from its root is lines of names: a name that is stored stands there once,
-- any other not at all, if the stored names have no NUL and at most 255 bytes.
pub trie_get_all_recursive-names :
    (t : TrieNode)
    → Stores t
    → (l : List Bytes) × (trie_get_all_recursive t [] ≡ unlines l)
      × ((q : Bytes) → occurrences l q ≡ (if trie_search t q then 1 else 0))
trie_get_all_recursive-names t h = (
  names_below t,
  text-names t [] (λ q e. (h q e, omega (arith, (h q e).1)))
      ∙ ap unlines (map_empty (names_below t)),
  λ q. occurrences-below t q (h q),
)
