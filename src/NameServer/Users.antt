-- ===== src/NameServer/Users.antt =====
-- The registered users of name_server/client_handler.c.
use distributed_concurrent_f.Prelude.{
  some, ◌≤◌, Bool, true, not, ◌&&◌, ◌||◌, List, [], ◌∷◌, ◌≡◌, arith, Bytes, length, max_name,
  copy_name_short, str_eq, str_eq_iff, if◌then◌else◌,
}
use distributed_concurrent_f.Persistence.{users_text}
use distributed_concurrent_f.NameServer.{
  NameServer, is_user, nm_register_persistent_user, nm_save_users,
}

-- No user is registered twice.
unfoldable pub no_repeat : List Bytes → Bool
no_repeat [] = true
no_repeat (u ∷ l) = not (is_user l u) && no_repeat l

pub record Registers (nm : NameServer) (u : Bytes) (after : NameServer) : Type 0 where
  pub users :
      (q : Bytes) → is_user after.all_users_list q ≡ (str_eq q u || is_user nm.all_users_list q)
  pub once : no_repeat after.all_users_list ≡ no_repeat nm.all_users_list
  pub saved : after.saved_users ≡ (
      if nm.can_save && not (is_user nm.all_users_list u)
      then some (users_text after.all_users_list)
      else nm.saved_users)

-- A user whose name is not cut is registered, no other user comes in or goes, a list without repeats
-- stays one, and the file of the users holds the new list if it can be written and the user is new.
pub nm_register_persistent_user_lem :
    (nm : NameServer) (u : Bytes)
    → length u ≤ max_name
    → Registers nm u (nm_register_persistent_user nm u)
unfolding nm_register_persistent_user nm_save_users is_user no_repeat
nm_register_persistent_user_lem nm u h = record {
  users = λ q. ground (arith, copy_name_short u h, str_eq_iff u q, str_eq_iff q u);
  once = ground (arith, copy_name_short u h);
  saved = ground arith;
}
