-- ===== src/UndoHandler.antt =====
-- storage_server/undo_handler.c, over a directory of files. A path that cannot be opened for writing or
-- unlinked, or a pair of paths that cannot be renamed, is a choice of the operating system. The text of
-- a file holds no NUL.
pub mod Laws
use distributed_concurrent_f.Prelude.{
  Bool, true, false, Option, none, some, Bytes, str_eq, if◌then◌else◌,
}

pub record FileSystem : Type 0 where
  pub files : Bytes → Option Bytes
  pub can_write : Bytes → Bool
  pub can_rename : Bytes → Bytes → Bool
  pub can_unlink : Bytes → Bool

-- `fopen(path, "w")`, `fwrite` and `fclose`
abbrev pub store : FileSystem → Bytes → Bytes → FileSystem
store fs path text = record fs { files = λ q. if str_eq q path then some text else fs.files q }

-- The directory without that file.
abbrev pub without : FileSystem → Bytes → FileSystem
without fs path = record fs { files = λ q. if str_eq q path then none else fs.files q }

-- The source does not look at the result of `unlink`.
abbrev pub unlink : FileSystem → Bytes → FileSystem
unlink fs path = if fs.can_unlink path then without fs path else fs

-- The copying loop moves the whole text. The flag is the return value.
unfoldable pub create_undo_backup : FileSystem → Bytes → Bytes → Bool × FileSystem
create_undo_backup fs filepath undo_filepath =
    let fs' = unlink fs undo_filepath in
    elim (fs'.files filepath) [
      | none ↦ (true, fs')
      | some text ↦
          if fs.can_write undo_filepath then (true, store fs' undo_filepath text) else (false, fs')
    ]

-- `rename` puts the text of the undo file in the place of the main file.
unfoldable pub perform_undo : FileSystem → Bytes → Bytes → Bool × FileSystem
perform_undo fs filepath undo_filepath = elim (fs.files undo_filepath) [
  | none ↦ (false, fs)
  | some text ↦
      if fs.can_rename undo_filepath filepath
      then (true, store (without fs undo_filepath) filepath text)
      else (false, fs)
]
