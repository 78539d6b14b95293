-- ===== src/FileOps/Stream.antt =====
-- `handle_ss_stream` of storage_server/file_ops.c: the words of a file and what stands between them, a
-- message each. The pauses of 0.1 seconds are left out.
pub mod Laws
use distributed_concurrent_f.Prelude.{
  ℕ, Bool, true, false, ◌||◌, List, [], ◌∷◌, ◌++◌, Option, none, some, Bytes, ltb, ◌==◌, length,
  if◌then◌else◌,
}
use distributed_concurrent_f.CString.{emit, is_space}
use distributed_concurrent_f.Common.{eof}
use distributed_concurrent_f.FileParser.{is_delimiter}
use distributed_concurrent_f.StorageServer.{StorageServer}
use distributed_concurrent_f.UndoHandler.{FileSystem}
use distributed_concurrent_f.FileOps.{file_path}

-- `isspace(c) || is_delimiter(c)`
unfoldable pub is_break : ℕ → Bool
is_break c = is_space c || is_delimiter c

-- The loop, with the last word; `word` is what the buffer of 256 bytes holds, and a byte for which it
-- has no room is lost.
unfoldable pub stream_loop : Bytes → Bytes → List Bytes
unfolding is_break
stream_loop [] word = emit word
stream_loop (c ∷ f) word = elim (c == eof) [
  | true ↦ emit word
  | false ↦ elim (is_break c) [
    | true ↦ emit word ++ (c ∷ []) ∷ stream_loop f []
    | false ↦ stream_loop f (if ltb (length word) 255 then word ++ c ∷ [] else word)
  ]
]

-- The messages, or none if there is no such file.
unfoldable pub handle_ss_stream : StorageServer → FileSystem → Bytes → Option (List Bytes)
unfolding stream_loop
handle_ss_stream ss fs filename = elim (fs.files (file_path ss filename)) [
  | none ↦ none
  | some text ↦ some (stream_loop text [])
]
