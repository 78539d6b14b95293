-- ===== src/Trie/Listing.antt =====
-- `_trie_get_all_recursive` of common/data_structures.c: which names a trie lists, and how often.
pub mod Text
pub mod Inserted
use mathlib.Core.List.{map}
use distributed_concurrent_f.Prelude.{
  ℕ, zero, suc, ◌+◌, ◌≤◌, ◌<◌, Bool, true, false, ◌&&◌, ◌||◌, List, [], ◌∷◌, ◌++◌, append_assoc,
  append-nil, ◌≡◌, ◌≢◌, ◌∙◌, refl, sym, ap, arith, Bytes, str_eq, str_eq→eq, lists, ◌==◌, leb, ltb,
  if◌then◌else◌, length, length-append, take_all, All, Bool-cases, inl, inr,
}
use distributed_concurrent_f.CString.Lines.{unlines}
use distributed_concurrent_f.Trie.{
  TrieNode, null, node, alphabet_size, trie_insert, trie_search, next_prefix, children_loop,
  trie_get_all_recursive,
}
use distributed_concurrent_f.Trie.Insert.{Exists, search-insert}

-- How often a name stands in a list.
unfoldable pub occurrences : List Bytes → Bytes → ℕ
occurrences [] q = 0
occurrences (w ∷ l) q = (if str_eq w q then 1 else 0) + occurrences l q

-- A name that the prefixes of the listing can hold.
abbrev pub IsName : Bytes → Type 0
IsName q = All (λ c. (0 < c) × (c < 256)) q × (length q ≤ 255)

-- The names that can be stored, in the buffers of the listing.
abbrev pub Stores : TrieNode → Type 0
Stores t = (q : Bytes) → trie_search t q ≡ true → IsName q

pub name_loop : ℕ → ℕ → (ℕ → List Bytes) → List Bytes
name_loop zero i names = []
name_loop (suc n) i names = names i ++ name_loop n (i + 1) names

pub own : Bool → List Bytes
own e = if e then [] ∷ [] else []

-- The names that are stored at and below a node, from there on.
pub names_below : TrieNode → List Bytes
names_below null = []
names_below (node e children) =
    own e ++ name_loop alphabet_size 0 (λ i. map (λ w. i ∷ w) (names_below (children i)))

pub occurrences-append :
    (l m : List Bytes) (q : Bytes) → occurrences (l ++ m) q ≡ occurrences l q + occurrences m q
unfolding occurrences
occurrences-append [] m q = omega arith
occurrences-append (w ∷ l) m q = omega (arith, occurrences-append l m q)

occurrences-map_nil : (i : ℕ) (l : List Bytes) → occurrences (map (λ w. i ∷ w) l) [] ≡ 0
unfolding occurrences str_eq
occurrences-map_nil i [] = refl
occurrences-map_nil i (w ∷ l) = omega (arith, occurrences-map_nil i l)

occurrences-map_cons :
    (i c : ℕ) (l : List Bytes) (s : Bytes)
    → occurrences (map (λ w. i ∷ w) l) (c ∷ s) ≡ (if i == c then occurrences l s else 0)
unfolding occurrences str_eq
occurrences-map_cons i c [] s = ground arith
occurrences-map_cons i c (w ∷ l) s = ground (arith, occurrences-map_cons i c l s)

occurrences-loop :
    (n i c : ℕ) (names : ℕ → List Bytes) (q : Bytes)
    → ((j : ℕ) → j ≢ c → occurrences (names j) q ≡ 0)
    → occurrences (name_loop n i names) q
      ≡ (if leb i c && ltb c (i + n) then occurrences (names c) q else 0)
unfolding name_loop occurrences
occurrences-loop zero i c names q h = ground arith
occurrences-loop (suc n) i c names q h = ground (
  arith,
  occurrences-append (names i) (name_loop n (i + 1) names) q,
  occurrences-loop n (i + 1) c names q h,
  h i,
)

occurrences-own :
    (e : Bool) (c : ℕ) (s : Bytes)
    → (occurrences (own e) [] ≡ (if e then 1 else 0)) × (occurrences (own e) (c ∷ s) ≡ 0)
unfolding occurrences own str_eq
occurrences-own true c s = (refl, refl)
occurrences-own false c s = (refl, refl)

-- Each child's names, with its byte in front.
abbrev pub branches : (ℕ → TrieNode) → ℕ → List Bytes
branches children i = map (λ w. i ∷ w) (names_below (children i))

pub occurrences-below :
    (t : TrieNode) (q : Bytes)
    → (trie_search t q ≡ true → IsName q)
    → occurrences (names_below t) q ≡ (if trie_search t q then 1 else 0)
unfolding names_below trie_search
occurrences-below null q h = unfold occurrences in refl
occurrences-below (node e children) [] h =
    occurrences-append (own e) (name_loop alphabet_size 0 (branches children)) []
    ∙ ground (
      arith,
      (occurrences-own e 0 []).0,
      occurrences-loop alphabet_size 0 0 (branches children) []
          (λ j ne. occurrences-map_nil j (names_below (children j))),
      occurrences-map_nil 0 (names_below (children 0)),
    )
occurrences-below (node e children) (c ∷ s) h =
    occurrences-append (own e) (name_loop alphabet_size 0 (branches children)) (c ∷ s)
    ∙ ground (
      arith,
      (occurrences-own e c s).1,
      occurrences-loop alphabet_size 0 c (branches children) (c ∷ s)
          (λ j ne. ground (arith, occurrences-map_cons j c (names_below (children j)) s)),
      occurrences-map_cons c c (names_below (children c)) s,
      occurrences-below (children c) s (λ e'. ((h e').0.1, omega (arith, (h e').1))),
    )
