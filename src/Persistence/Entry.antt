-- ===== src/Persistence/Entry.antt =====
-- The access list of a saved file, printed and read back.
use distributed_concurrent_f.Prelude.{
  ℕ, ◌≤◌, false, ◌||◌, List, [], ◌∷◌, ◌++◌, append_assoc, ◌≡◌, ◌≢◌, ◌∙◌, refl, sym, ap, arith,
  Bytes, ◌==◌, All, All-imp, All-append, length, max_name, str_eq_iff, if◌then◌else◌,
}
use distributed_concurrent_f.CString.{split_string, tokens_from}
use distributed_concurrent_f.CString.Fields.{Free, IsField, split_string-cons, split_string-fields}
use distributed_concurrent_f.AccessList.{AccessNode, add_access, get_access}
use distributed_concurrent_f.AccessList.Laws.{has_user, is_unique, Unique, get-add_access}
use distributed_concurrent_f.Persistence.{access_text, load_entry, load_entries}

-- No end of line, and no bar.
abbrev pub IsLineChar : ℕ → Type 0
IsLineChar c = (c == 13 || (c == 10 || c == b'|')) ≡ false

-- Nor a comma or a semicolon.
abbrev pub IsNameChar : ℕ → Type 0
IsNameChar c = (c == 13 || (c == 10 || (c == b'|' || (c == b',' || c == b';')))) ≡ false

-- A user name that can be saved.
abbrev pub IsName : Bytes → Type 0
IsName w = (w ≢ []) × All IsNameChar w × (length w ≤ max_name)

abbrev pub IsEntry : AccessNode → Type 0
IsEntry n = IsName n.username × IsNameChar n.permission

line_char : (c : ℕ) → IsNameChar c → IsLineChar c
line_char c h = ground arith

pub name-line : (w : Bytes) → All IsNameChar w → All IsLineChar w
name-line w h = All-imp IsNameChar IsLineChar line_char w h

comma-Free : (w : Bytes) → All IsNameChar w → Free b',' w
comma-Free w h = All-imp IsNameChar (λ c. (c == b',') ≡ false) (λ c k. ground arith) w h

semicolon-Free : (w : Bytes) → All IsNameChar w → Free b';' w
semicolon-Free w h = All-imp IsNameChar (λ c. (c == b';') ≡ false) (λ c k. ground arith) w h

abbrev pair_text : AccessNode → Bytes
pair_text n = n.username ++ b',' ∷ n.permission ∷ []

pub full : (w v : Bytes) (c : ℕ) → w ++ c ∷ v ≢ []
full [] v c e = cc
full (d ∷ w) v c e = cc

perm-IsField : (n : AccessNode) → IsEntry n → IsField b',' (n.permission ∷ [])
perm-IsField n h = (full [] [] n.permission, (ground (arith, h.1), tt))

pair-IsField : (n : AccessNode) → IsEntry n → IsField b';' (pair_text n)
pair-IsField n h = (
  full n.username (n.permission ∷ []) b',',
  All-append (λ c. (c == b';') ≡ false) n.username _ (semicolon-Free n.username h.0.1)
      (refl, (ground (arith, h.1), tt)),
)

-- One entry is read back.
load_entry_pair :
    (l : List AccessNode) (n : AccessNode)
    → IsEntry n
    → load_entry l (pair_text n) ≡ add_access l n.username n.permission
unfolding load_entry
load_entry_pair l n h =
    rw
      (split_string-fields b',' n.username ((n.permission ∷ []) ∷ [])
        (h.0.0, comma-Free n.username h.0.1) (perm-IsField n h, tt))
      refl

-- The entries granted one after the other.
abbrev pub add_all : List AccessNode → List AccessNode → List AccessNode
add_all l [] = l
add_all l (n ∷ ns) = add_all (add_access l n.username n.permission) ns

pub load_entries-access_text :
    (l ns : List AccessNode)
    → All IsEntry ns
    → load_entries l (split_string (access_text ns) b';') ≡ add_all l ns
unfolding load_entries access_text
load_entries-access_text l [] h = unfold split_string tokens_from in refl
load_entries-access_text l (n ∷ ns) h =
    let cut : split_string (pair_text n ++ b';' ∷ access_text ns) b';'
        ≡ pair_text n ∷ split_string (access_text ns) b';' =
      split_string-cons b';' (pair_text n) (access_text ns) (pair-IsField n h.0) in
    let split : split_string (access_text (n ∷ ns)) b';'
        ≡ pair_text n ∷ split_string (access_text ns) b';' =
      ap (λ t. split_string t b';')
        (sym (append_assoc n.username (b',' ∷ n.permission ∷ []) (b';' ∷ access_text ns)))
      ∙ cut in
    ap (load_entries l) split
    ∙ ap (λ k. load_entries k (split_string (access_text ns) b';')) (load_entry_pair l n h.0)
    ∙ load_entries-access_text (add_access l n.username n.permission) ns h.1

-- Later grants win, and where no user has two entries the order does not matter.
pub get-add_all :
    (l ns : List AccessNode) (q : Bytes)
    → All IsEntry ns
    → Unique ns
    → get_access (add_all l ns) q ≡ (if has_user ns q then get_access ns q else get_access l q)
unfolding has_user get_access is_unique
get-add_all l [] q h u = refl
get-add_all l (n ∷ ns) q h u = ground (
  arith,
  get-add_all (add_access l n.username n.permission) ns q,
  get-add_access l n.username q n.permission h.0.0.2,
  str_eq_iff q n.username,
  str_eq_iff n.username q,
)

pub access_text-line : (ns : List AccessNode) → All IsEntry ns → All IsLineChar (access_text ns)
unfolding access_text
access_text-line [] h = tt
access_text-line (n ∷ ns) h =
    All-append IsLineChar n.username _ (name-line n.username h.0.0.1)
      (refl, (line_char n.permission h.0.1, (refl, access_text-line ns h.1)))
