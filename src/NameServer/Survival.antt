-- ===== src/NameServer/Survival.antt =====
-- The end and the next start of the name server, as one step, over name_server/persistence.c: which files
-- and users are still there.
use mathlib.Core.List.{map}
use distributed_concurrent_f.Prelude.{
  ℕ, ◌≤◌, true, ◌||◌, List, [], ◌∷◌, ◌++◌, ◌≡◌, ◌≢◌, ◌∙◌, refl, ap, arith, none, some, Bytes, ℤ,
  ltb, All, length, max_name, copy_name_short,
}
use distributed_concurrent_f.CString.Lines.{IsLine, fgets_lines-unlines, trim_newline_line}
use distributed_concurrent_f.HashTable.{ht_get, ht_create}
use distributed_concurrent_f.HashTable.Chain.{FileMetadata, chain_find}
use distributed_concurrent_f.HashTable.Laws.{IsTable}
use distributed_concurrent_f.Persistence.{file_lines, files_text, users_text}
use distributed_concurrent_f.Persistence.Line.{IsSaved, reloaded}
use distributed_concurrent_f.Persistence.Survives.{survives-some, survives-none}
use distributed_concurrent_f.NameServer.{
  NameServer, all_files, is_user, check_access, nm_save_files, nm_save_users,
}
use distributed_concurrent_f.NameServer.Restart.{
  load_users, nm_load_files, nm_load_users, nm_create, nm_free, restart, load_file, load_files,
  blank,
}
use distributed_concurrent_f.NameServer.Reload.{kept, ended, find-all_files, get-load_files}
use distributed_concurrent_f.NameServer.Saved.{lines-IsLine, found-IsSaved, check-reloaded}

load_users_table : (nm : NameServer) → (nm_load_users nm).file_table ≡ nm.file_table
unfolding nm_load_users
load_users_table nm = ground arith

load_files_users :
    (now : ℤ) (nm : NameServer) (lines : List Bytes)
    → ((load_files now nm lines).saved_users ≡ nm.saved_users)
      × ((load_files now nm lines).all_users_list ≡ nm.all_users_list)
unfolding load_files load_file
load_files_users now nm [] = (refl, refl)
load_files_users now nm (line ∷ lines) =
    ground (arith, load_files_users now (load_file now nm line) lines)

-- The server before the users are loaded.
abbrev with_files : ℤ → NameServer → NameServer
with_files now nm =
    load_files now
      (blank nm.can_save (some (files_text (all_files nm.file_table)))
        (some (users_text nm.all_users_list)))
      (ended (all_files nm.file_table))

-- What is saved of a file is the same, and everybody's rights are.
pub record SameFile (m k : FileMetadata) : Type 0 where
  pub filename : k.filename ≡ m.filename
  pub owner : k.owner ≡ m.owner
  pub place : (k.ss_ip ≡ m.ss_ip) × (k.ss_client_port ≡ m.ss_client_port)
  pub numbers : (k.size ≡ m.size) × (k.word_count ≡ m.word_count) × (k.char_count ≡ m.char_count)
  pub modified : k.last_modified ≡ m.last_modified
  pub rights : (user : Bytes) (wanted : ℕ) → check_access k user wanted ≡ check_access m user wanted

-- A user name that can be saved.
abbrev pub IsUserLine : Bytes → Type 0
IsUserLine w = (w ≢ []) × IsLine w × (length w ≤ max_name)

nonempty_length : (w : Bytes) → w ≢ [] → ltb 0 (length w) ≡ true
nonempty_length [] h = absurd (h refl)
nonempty_length (c ∷ w) h = ground arith

load_users_step :
    (old : List Bytes) (u : Bytes) (lines : List Bytes)
    → IsUserLine u
    → load_users old ((u ++ 10 ∷ []) ∷ lines) ≡ load_users (u ∷ old) lines
unfolding load_users
load_users_step old u lines h =
    rw (trim_newline_line u h.1.0, nonempty_length u h.0, copy_name_short u h.2) refl

load_users-reverse :
    (users old : List Bytes) (q : Bytes)
    → All IsUserLine users
    → is_user (load_users old (map (λ w. w ++ 10 ∷ []) users)) q
      ≡ (is_user users q || is_user old q)
unfolding is_user
load_users-reverse [] old q h = unfold load_users in refl
load_users-reverse (u ∷ users) old q h =
    ap (λ l. is_user l q) (load_users_step old u (map (λ w. w ++ 10 ∷ []) users) h.0)
    ∙ load_users-reverse users (u ∷ old) q h.1
    ∙ ground arith

users-IsLine : (l : List Bytes) → All IsUserLine l → All IsLine l
users-IsLine [] h = tt
users-IsLine (u ∷ l) h = (h.0.1, users-IsLine l h.1)

is_user-load_users :
    (nm : NameServer) (users : List Bytes) (q : Bytes)
    → nm.saved_users ≡ some (users_text users)
    → nm.all_users_list ≡ []
    → All IsUserLine users
    → is_user (nm_load_users nm).all_users_list q ≡ is_user users q
unfolding nm_load_users users_text
is_user-load_users nm users q e empty h =
    rw (e, empty, fgets_lines-unlines users (users-IsLine users h))
      (load_users-reverse users [] q h ∙ (unfold is_user in ground arith))

module _ (nm : NameServer) (now : ℤ) (writable : nm.can_save ≡ true)
    (s : All IsSaved (all_files nm.file_table)) where
  restart-eq : restart nm now ≡ nm_load_users (with_files now nm)
  unfolding nm_free nm_save_files nm_save_users nm_create nm_load_files files_text
  restart-eq =
      rw writable
        (rw (fgets_lines-unlines (file_lines (all_files nm.file_table)) (lines-IsLine _ s)) refl)

  pub get-restart :
      (q : Bytes)
      → IsTable nm.file_table
      → ht_get (restart nm now).file_table q ≡ kept now (ht_get nm.file_table q)
  get-restart q v =
      ap (λ (r : NameServer). ht_get r.file_table q) restart-eq
      ∙ ap (λ t. ht_get t q) (load_users_table (with_files now nm))
      ∙ get-load_files now (blank nm.can_save _ _) (all_files nm.file_table) q s
      ∙ rw no_file (find-all_files now nm.file_table q v)
    where
      no_file : ht_get ht_create q ≡ none
      no_file = unfold ht_get ht_create chain_find in refl

  -- A file of a well-formed table whose access list is not empty is there again when the name
  -- server has been ended and started: with its owner, its address and its numbers, and everybody
  -- has the rights to it that they had. All files of the table can be saved, and the state files
  -- can be written.
  pub restart-SameFile :
      (q : Bytes) (m : FileMetadata)
      → IsTable nm.file_table
      → ht_get nm.file_table q ≡ some m
      → m.access_list ≢ []
      → (k : FileMetadata) × (ht_get (restart nm now).file_table q ≡ some k) × SameFile m k
  restart-SameFile q m v e full =
      let saved = found-IsSaved nm.file_table q m s e in
      (
        reloaded now m,
        get-restart q v ∙ ap (kept now) e ∙ survives-some now m full,
        record {
          filename = refl;
          owner = refl;
          place = (refl, refl);
          numbers = (refl, refl, refl);
          modified = refl;
          rights = λ user wanted. check-reloaded now m user wanted saved;
        },
      )

  -- A file of a well-formed table whose access list is empty is gone when the name server has been
  -- ended and started. All files of the table can be saved, and the state files can be written.
  pub restart-eq-none :
      (q : Bytes) (m : FileMetadata)
      → IsTable nm.file_table
      → ht_get nm.file_table q ≡ some m
      → m.access_list ≡ []
      → ht_get (restart nm now).file_table q ≡ none
  restart-eq-none q m v e empty = get-restart q v ∙ ap (kept now) e ∙ survives-none now m empty

  -- The same users are registered when the name server has been ended and started. Their names and
  -- all files of the table can be saved, and the state files can be written.
  pub is_user-restart :
      (q : Bytes)
      → All IsUserLine nm.all_users_list
      → is_user (restart nm now).all_users_list q ≡ is_user nm.all_users_list q
  is_user-restart q h =
      let rest =
        load_files_users now
          (blank nm.can_save (some (files_text (all_files nm.file_table)))
            (some (users_text nm.all_users_list)))
          (ended (all_files nm.file_table)) in
      ap (λ (r : NameServer). is_user r.all_users_list q) restart-eq
      ∙ is_user-load_users (with_files now nm) nm.all_users_list q rest.0 rest.1 h
