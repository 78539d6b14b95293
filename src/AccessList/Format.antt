-- ===== src/AccessList/Format.antt =====
-- `format_access_list` of common/data_structures.c, the access part of the INFO reply.
use distributed_concurrent_f.Prelude.{
  ℕ, ◌-◌, ◌≤◌, ◌<◌, List, [], ◌∷◌, ◌++◌, append_assoc, ◌≡◌, ◌∙◌, arith, Bytes, codes, length,
  length-append, take, take_all, take-append_length, max_name, All,
}
use distributed_concurrent_f.AccessList.{AccessNode, access_entry, format_loop, format_access_list}

-- One user with the permission in brackets.
pub entry_text : AccessNode → Bytes
entry_text n = n.username ++ codes " (" ++ n.permission ∷ [] ++ codes ")"

-- The users, a comma and a blank between two of them.
pub list_text : AccessNode → List AccessNode → Bytes
list_text n [] = entry_text n
list_text n (m ∷ l) = entry_text n ++ (codes ", " ++ list_text m l)

abbrev pub HasShortName : AccessNode → Type 0
HasShortName n = length n.username ≤ max_name

access_entry_text : (n : AccessNode) → HasShortName n → access_entry n ≡ entry_text n ++ codes ", "
unfolding access_entry entry_text
access_entry_text n h =
    take_all 265 (n.username ++ codes " (" ++ n.permission ∷ [] ++ codes "), ")
      (rw (append_assoc, append_assoc, length-append) (omega arith))
    ∙ simp append_assoc

format_loop_text :
    (n : AccessNode) (l : List AccessNode) (out : Bytes)
    → All HasShortName (n ∷ l)
    → format_loop (n ∷ l) out ≡ (out ++ list_text n l) ++ codes ", "
unfolding format_loop list_text
format_loop_text n [] out h = rw (access_entry_text n h.0) (simp append_assoc)
format_loop_text n (m ∷ l) out h =
    rw (format_loop_text m l (out ++ access_entry n) h.1, access_entry_text n h.0)
      (simp append_assoc)

take_init : (s : Bytes) (a b : ℕ) → take (length (s ++ a ∷ b ∷ []) - 2) (s ++ a ∷ b ∷ []) ≡ s
take_init s a b =
    let e : (length (s ++ a ∷ b ∷ []) - 2) ≡ length s =
      omega (arith, length-append s (a ∷ b ∷ [])) in
    rw e (take-append_length s (a ∷ b ∷ []))

entry_text-pos : (n : AccessNode) (l : List AccessNode) → 0 < length (list_text n l)
unfolding list_text entry_text
entry_text-pos n [] = rw (append_assoc, append_assoc, length-append) (omega arith)
entry_text-pos n (m ∷ l) =
    rw (append_assoc, append_assoc, append_assoc, length-append) (omega arith)

-- For one or more users the text is exact: the cut takes off the last comma and blank, and nothing
-- of an entry is lost.
pub format_access_list-text :
    (n : AccessNode) (l : List AccessNode)
    → All HasShortName (n ∷ l)
    → format_access_list (n ∷ l) ≡ list_text n l
unfolding format_access_list
format_access_list-text n l h =
    let t = list_text n l in
    ground (
      arith,
      format_loop_text n l [] h,
      take_init t b',' 32,
      length-append t (codes ", "),
      entry_text-pos n l,
    )
