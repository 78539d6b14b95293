-- ===== src/AccessList/Laws.antt =====
-- The access list of common/data_structures.c is a map from users to permissions.
use distributed_concurrent_f.Prelude.{
  ℕ, ◌≤◌, Bool, true, false, not, ◌&&◌, ◌||◌, List, [], ◌∷◌, ◌≡◌, refl, arith, Bytes, none, some,
  length, max_name, Option-cases, inl, inr, copy_name_short, str_eq, str_eq_iff, if◌then◌else◌,
}
use distributed_concurrent_f.AccessList.{
  AccessNode, create_access_node, update_access, add_access, remove_access, get_access,
}

unfoldable pub has_user : List AccessNode → Bytes → Bool
has_user [] u = false
has_user (n ∷ l) u = str_eq n.username u || has_user l u

-- No user has two entries.
unfoldable pub is_unique : List AccessNode → Bool
is_unique [] = true
is_unique (n ∷ l) = not (has_user l n.username) && is_unique l

abbrev pub Unique : List AccessNode → Type 0
Unique l = is_unique l ≡ true

pub no_user : (l : List AccessNode) (u : Bytes) → has_user l u ≡ false → get_access l u ≡ 0
unfolding has_user get_access
no_user [] u h = refl
no_user (n ∷ l) u h = ground (arith, no_user l u)

update_none :
    (l : List AccessNode) (u : Bytes) (perm : ℕ)
    → update_access l u perm ≡ none
    → has_user l u ≡ false
unfolding has_user update_access
update_none [] u perm h = refl
update_none (n ∷ l) u perm h = ground (arith, update_none l u perm)

update_some :
    (l : List AccessNode) (u q : Bytes) (perm : ℕ) (l' : List AccessNode)
    → update_access l u perm ≡ some l'
    → (get_access l' q ≡ (if str_eq q u then perm else get_access l q))
      × (has_user l' q ≡ has_user l q)
unfolding has_user update_access get_access
update_some [] u q perm l' h = cc
update_some (n ∷ l) u q perm l' h = elim (Option-cases (update_access l u perm)) [
  | inl e ↦ ground (arith, str_eq_iff n.username u, str_eq_iff n.username q, str_eq_iff q u)
  | inr (l₁, e) ↦ ground (
    arith,
    update_some l u q perm l₁ e,
    str_eq_iff n.username u,
    str_eq_iff n.username q,
    str_eq_iff q u,
  )
]

-- A grant is read back, and no other user's permission changes. The name is not one that is cut.
pub get-add_access :
    (l : List AccessNode) (u q : Bytes) (perm : ℕ)
    → length u ≤ max_name
    → get_access (add_access l u perm) q ≡ (if str_eq q u then perm else get_access l q)
unfolding add_access create_access_node get_access
get-add_access l u q perm h = elim (Option-cases (update_access l u perm)) [
  | inl e ↦ ground (arith, copy_name_short u h, str_eq_iff u q, str_eq_iff q u)
  | inr (l', e) ↦ ground (arith, update_some l u q perm l' e)
]

update_some-Unique :
    (l : List AccessNode) (u : Bytes) (perm : ℕ) (l' : List AccessNode)
    → update_access l u perm ≡ some l'
    → Unique l
    → Unique l'
unfolding update_access is_unique
update_some-Unique [] u perm l' h v = cc
update_some-Unique (n ∷ l) u perm l' h v = elim (Option-cases (update_access l u perm)) [
  | inl e ↦ ground arith
  | inr (l₁, e) ↦
      ground (arith, update_some-Unique l u perm l₁ e, update_some l u n.username perm l₁ e)
]

pub add_access-Unique :
    (l : List AccessNode) (u : Bytes) (perm : ℕ)
    → length u ≤ max_name
    → Unique l
    → Unique (add_access l u perm)
unfolding add_access create_access_node is_unique
add_access-Unique l u perm h v = elim (Option-cases (update_access l u perm)) [
  | inl e ↦ ground (arith, copy_name_short u h, update_none l u perm e)
  | inr (l', e) ↦ ground (arith, update_some-Unique l u perm l' e v)
]

has-remove :
    (l : List AccessNode) (u q : Bytes)
    → has_user l q ≡ false
    → has_user (remove_access l u) q ≡ false
unfolding has_user remove_access
has-remove [] u q h = refl
has-remove (n ∷ l) u q h = ground (arith, has-remove l u q)

pub remove_access-Unique : (l : List AccessNode) (u : Bytes) → Unique l → Unique (remove_access l u)
unfolding remove_access is_unique
remove_access-Unique [] u v = refl
remove_access-Unique (n ∷ l) u v =
    ground (arith, has-remove l u n.username, remove_access-Unique l u)

-- Where no user has two entries, a removed user has no access, and no other permission changes.
pub get-remove_access :
    (l : List AccessNode) (u q : Bytes)
    → Unique l
    → get_access (remove_access l u) q ≡ (if str_eq q u then 0 else get_access l q)
unfolding get_access remove_access is_unique
get-remove_access [] u q v = ground arith
get-remove_access (n ∷ l) u q v = ground (
  arith,
  get-remove_access l u q,
  no_user l u,
  str_eq_iff n.username u,
  str_eq_iff n.username q,
  str_eq_iff q u,
)
