-- ===== src/AccessList.antt =====
-- The access control list of a file in common/data_structures.c, a linked list of `AccessNode`. A
-- user name longer than 255 bytes is cut by `strncpy`; the byte that it leaves unwritten in a fresh
-- node is read as the NUL.
pub mod Laws
pub mod Format
use distributed_concurrent_f.Prelude.{
  ℕ, ◌-◌, List, [], ◌∷◌, ◌++◌, Option, none, some, Bytes, codes, str_eq, copy_name, if◌then◌else◌,
  ltb, length, take,
}

pub record AccessNode : Type 0 where
  pub username : Bytes
  pub permission : ℕ

unfoldable pub create_access_node : Bytes → ℕ → AccessNode
unfolding copy_name
create_access_node username perm = record { username = copy_name username; permission = perm }

-- The loop that updates the permission of a user who is there; `none` if the loop runs out.
unfoldable pub update_access : List AccessNode → Bytes → ℕ → Option (List AccessNode)
update_access [] username perm = none
update_access (n ∷ l) username perm =
    if str_eq n.username username
    then some (record n { permission = perm } ∷ l)
    else elim (update_access l username perm) [ none ↦ none | some l' ↦ some (n ∷ l') ]

unfoldable pub add_access : List AccessNode → Bytes → ℕ → List AccessNode
unfolding update_access
add_access head username perm = elim (update_access head username perm) [
  | some updated ↦ updated
  | none ↦ create_access_node username perm ∷ head
]

unfoldable pub remove_access : List AccessNode → Bytes → List AccessNode
remove_access [] username = []
remove_access (n ∷ l) username =
    if str_eq n.username username then l else n ∷ remove_access l username

-- The NUL byte stands for no access.
unfoldable pub get_access : List AccessNode → Bytes → ℕ
get_access [] username = 0
get_access (n ∷ l) username =
    if str_eq n.username username then n.permission else get_access l username

-- `"%s (%c), "` in a buffer of `MAX_USERNAME_LEN + 10` bytes.
unfoldable pub access_entry : AccessNode → Bytes
access_entry n = take 265 (n.username ++ codes " (" ++ n.permission ∷ [] ++ codes "), ")

unfoldable pub format_loop : List AccessNode → Bytes → Bytes
format_loop [] buffer = buffer
format_loop (n ∷ l) buffer = format_loop l (buffer ++ access_entry n)

-- The last two bytes are cut off if there are more than two.
unfoldable pub format_access_list : List AccessNode → Bytes
unfolding format_loop access_entry
format_access_list head =
    let buffer = format_loop head [] in
    if ltb 2 (length buffer) then take (length buffer - 2) buffer else buffer
