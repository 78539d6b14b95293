-- ===== src/UndoHandler/Laws.antt =====
-- What the backup and the undo of storage_server/undo_handler.c do to the files.
use distributed_concurrent_f.Prelude.{
  Bool, Option, Option-cases, inl, inr, str_eq_iff, true, false, none, some, ◌≡◌, arith, Bytes,
  str_eq, if◌then◌else◌,
}
use distributed_concurrent_f.UndoHandler.{FileSystem, create_undo_backup, perform_undo}

-- The undo file after a backup of the text `new`: it is replaced if there is such a text and it can be
-- written; if not, it is what its removal has left.
unfoldable pub backup_text : Option Bytes → Bool → Option Bytes → Option Bytes
backup_text none can_write left = left
backup_text (some text) can_write left = if can_write then some text else left

-- What the attempt to remove a file leaves of it.
abbrev pub removed_text : Bool → Option Bytes → Option Bytes
removed_text can_unlink old = if can_unlink then none else old

-- A backup changes the undo file alone.
pub backup_files :
    (fs : FileSystem) (p u q : Bytes)
    → str_eq p u ≡ false
    → (create_undo_backup fs p u).1.files q ≡ (
        if str_eq q u
        then backup_text (fs.files p) (fs.can_write u) (removed_text (fs.can_unlink u) (fs.files u))
        else fs.files q)
unfolding create_undo_backup backup_text
backup_files fs p u q h = elim (Option-cases (fs.files p)) [
  | inl e ↦ ground (arith, e, h, str_eq_iff q u)
  | inr (text, e) ↦ ground (arith, e, h, str_eq_iff q u)
]

pub backup_flags :
    (fs : FileSystem) (p u : Bytes)
    → ((create_undo_backup fs p u).1.can_write ≡ fs.can_write)
      × ((create_undo_backup fs p u).1.can_rename ≡ fs.can_rename)
unfolding create_undo_backup
backup_flags fs p u = ground arith

-- An undo works if there is an undo file that can be renamed; the undo file is then gone.
pub undo_files :
    (fs : FileSystem) (p u q : Bytes) (text : Bytes)
    → str_eq p u ≡ false
    → fs.files u ≡ some text
    → fs.can_rename u p ≡ true
    → ((perform_undo fs p u).0 ≡ true)
      × ((perform_undo fs p u).1.files q
          ≡ (if str_eq q p then some text else if str_eq q u then none else fs.files q))
unfolding perform_undo
undo_files fs p u q text h e r = ground arith
