-- ===== src/NameServer/Servers.antt =====
-- The round robin of name_server/ss_handler.c, and the list that it walks.
use distributed_concurrent_f.Prelude.{
  ℕ, zero, suc, ◌+◌, ◌≤◌, true, false, List, [], ◌∷◌, ◌≡◌, refl, arith, Option, none, some,
  List-cases, inl, inr, length, get_elem?, leb, if◌then◌else◌,
}
use distributed_concurrent_f.NameServer.{NameServer, StorageServerInfo, get_ss_for_new_file}

get_elem-within {ℓ} :
    {A : Type ℓ} (l : List A) (i : ℕ) → suc i ≤ length l → (a : A) × (get_elem? l i ≡ some a)
get_elem-within [] i h = absurd (omega arith)
get_elem-within (x ∷ l) zero h = (x, refl)
get_elem-within (x ∷ l) (suc i) h = get_elem-within l i (omega arith)

-- The index of the server that is next in turn.
abbrev pub turn : NameServer → ℕ
turn nm = if leb (length nm.ss_list) nm.next_ss_index then 0 else nm.next_ss_index

pub record TakesTurn (nm : NameServer) (found : Option StorageServerInfo × NameServer)
    : Type 0 where
  pub chosen : found.0 ≡ get_elem? nm.ss_list (turn nm)
  pub served : elim found.0 [ none ↦ false | some ss ↦ true ] ≡ leb 1 (length nm.ss_list)
  pub moved :
      found.1.next_ss_index ≡ (if leb 1 (length nm.ss_list) then turn nm + 1 else nm.next_ss_index)
  pub same_list : found.1.ss_list ≡ nm.ss_list

-- The server in turn is chosen, there is one whenever a server is connected, and the turn moves on by
-- one.
pub get_ss_for_new_file_lem : (nm : NameServer) → TakesTurn nm (get_ss_for_new_file nm)
unfolding get_ss_for_new_file
get_ss_for_new_file_lem nm = elim (List-cases nm.ss_list) [
  | inl e ↦ record {
    chosen = ground (arith, e);
    served = ground (arith, e);
    moved = ground (arith, e);
    same_list = ground (arith, e);
  }
  | inr (s, l, e) ↦ record {
    chosen = ground (arith, e);
    served =
        let found = get_elem-within nm.ss_list (turn nm) (ground (arith, e)) in
        ground (arith, e, found.1);
    moved = ground (arith, e);
    same_list = ground (arith, e);
  }
]
