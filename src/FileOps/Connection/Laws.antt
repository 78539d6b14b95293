-- ===== src/FileOps/Connection/Laws.antt =====
-- Requests as the client and the name server write them, and what a storage server makes of them.
use distributed_concurrent_f.Prelude.{
  true, [], ◌∷◌, ◌++◌, ◌≡◌, ◌∙◌, refl, sym, ap, arith, Bytes, codes, ℤ, pos, ◌+◌, take_all, length,
  take, str_eq, str_eq_refl, Option, some, if◌then◌else◌,
}
use distributed_concurrent_f.CString.{split_string}
use distributed_concurrent_f.CString.Fields.{IsField, split_string-fields}
use distributed_concurrent_f.Decimal.{print_int, print_int-IsField, atoi-print_int}
use distributed_concurrent_f.StorageServer.{StorageServer}
use distributed_concurrent_f.UndoHandler.{without, FileSystem, perform_undo, store, unlink}
use distributed_concurrent_f.FileOps.{
  not_found, content, no_undo, file_path, undo_path, handle_ss_read, handle_ss_undo, write_begin,
}
use distributed_concurrent_f.FileOps.Write.{Fits, path_length}
use distributed_concurrent_f.FileOps.Stream.{handle_ss_stream}
use distributed_concurrent_f.FileOps.Connection.{
  Ack, ack_create_fail, reply, stream, Served, unchanged, from_begun, from_outcome, serve_write,
  ss_handle_client_connection, ack_create_ok, ack_delete_ok, ss_nm_command, deleted_undo_path,
}

-- A word of a command.
abbrev pub IsWord : Bytes → Type 0
IsWord = IsField 32

pub read-IsWord : IsWord (codes "READ")
read-IsWord = (λ (e : codes "READ" ≡ []). cc, (refl, (refl, (refl, (refl, tt)))))

pub stream-IsWord : IsWord (codes "STREAM")
stream-IsWord =
    (λ (e : codes "STREAM" ≡ []). cc, (refl, (refl, (refl, (refl, (refl, (refl, tt)))))))

write-IsWord : IsWord (codes "WRITE")
write-IsWord = (λ (e : codes "WRITE" ≡ []). cc, (refl, (refl, (refl, (refl, (refl, tt))))))

undo-IsWord : IsWord (codes "UNDO")
undo-IsWord = (λ (e : codes "UNDO" ≡ []). cc, (refl, (refl, (refl, (refl, tt)))))

create-IsWord : IsWord (codes "CREATE")
create-IsWord =
    (λ (e : codes "CREATE" ≡ []). cc, (refl, (refl, (refl, (refl, (refl, (refl, tt)))))))

delete-IsWord : IsWord (codes "DELETE")
delete-IsWord =
    (λ (e : codes "DELETE" ≡ []). cc, (refl, (refl, (refl, (refl, (refl, (refl, tt)))))))

pub two_words :
    (cmd f : Bytes) → IsWord cmd → IsWord f → split_string (cmd ++ 32 ∷ f) 32 ≡ cmd ∷ f ∷ []
two_words cmd f h k = split_string-fields 32 cmd (f ∷ []) h (k, tt)

write_words :
    (f : Bytes) (n : ℤ)
    → IsWord f
    → split_string (codes "WRITE " ++ f ++ 32 ∷ print_int n) 32
      ≡ codes "WRITE" ∷ f ∷ print_int n ∷ []
write_words f n h =
    split_string-fields 32 (codes "WRITE") (f ∷ print_int n ∷ []) write-IsWord
      (h, (print_int-IsField 32 n refl, tt))

-- The four requests, for a file name without a blank, at the handler of their command.
pub connection-requests :
    (ss : StorageServer) (fs : FileSystem) (f : Bytes) (n : ℤ)
    → IsWord f
    → (ss_handle_client_connection ss fs (codes "READ " ++ f)
        ≡ unchanged ss fs (reply (handle_ss_read ss fs f)))
      × (ss_handle_client_connection ss fs (codes "STREAM " ++ f)
          ≡ unchanged ss fs (stream (handle_ss_stream ss fs f)))
      × (ss_handle_client_connection ss fs (codes "WRITE " ++ f ++ 32 ∷ print_int n)
          ≡ from_begun fs (write_begin ss fs f n))
      × (ss_handle_client_connection ss fs (codes "UNDO " ++ f)
          ≡ from_outcome (handle_ss_undo ss fs f))
unfolding ss_handle_client_connection serve_write str_eq
connection-requests ss fs f n h = (
  rw (two_words (codes "READ") f read-IsWord h) refl,
  rw (two_words (codes "STREAM") f stream-IsWord h) refl,
  rw (write_words f n h, serve_write, atoi-print_int n) refl,
  rw (two_words (codes "UNDO") f undo-IsWord h) refl,
)

-- `CREATE` leaves an empty file, or what was there if it cannot be opened.
create_command :
    (ss : StorageServer) (fs : FileSystem) (f : Bytes)
    → IsWord f
    → ss_nm_command ss fs (codes "CREATE " ++ f) ≡ (
        if fs.can_write (file_path ss f)
        then (some ack_create_ok, store fs (file_path ss f) [])
        else (some ack_create_fail, fs))
unfolding ss_nm_command str_eq
create_command ss fs f h = rw (two_words (codes "CREATE") f create-IsWord h) refl

delete_command :
    (ss : StorageServer) (fs : FileSystem) (f : Bytes)
    → IsWord f
    → ss_nm_command ss fs (codes "DELETE " ++ f)
      ≡ (some ack_delete_ok, unlink (unlink fs (file_path ss f)) (deleted_undo_path ss f))
unfolding ss_nm_command str_eq
delete_command ss fs f h = rw (two_words (codes "DELETE") f delete-IsWord h) refl

read_stored :
    (ss : StorageServer) (fs : FileSystem) (f text : Bytes)
    → handle_ss_read ss (store fs (file_path ss f) text) f ≡ content text
unfolding handle_ss_read
read_stored ss fs f text = ground (arith, str_eq_refl (file_path ss f))

-- After the name server's `CREATE`, which is acknowledged if the file can be written, a client that
-- reads the file gets an empty text.
pub create-read :
    (ss : StorageServer) (fs : FileSystem) (f : Bytes)
    → IsWord f
    → fs.can_write (file_path ss f) ≡ true
    → ((ss_nm_command ss fs (codes "CREATE " ++ f)).0 ≡ some ack_create_ok)
      × ((ss_handle_client_connection ss
            (ss_nm_command ss fs (codes "CREATE " ++ f)).1
            (codes "READ " ++ f)).answer
          ≡ reply (content []))
create-read ss fs f h w =
    let made = create_command ss fs f h ∙ rw w refl in
    (
      ap (λ (r : Option Ack × FileSystem). r.0) made,
      ap
            (λ (r : Option Ack × FileSystem).
              (ss_handle_client_connection ss r.1 (codes "READ " ++ f)).answer)
            made
          ∙ ap (λ (r : Served). r.answer)
              (connection-requests ss (store fs (file_path ss f) []) f (pos 0) h).0
          ∙ ap reply (read_stored ss fs f []),
    )

-- What is left when the file and its backup are taken away.
abbrev pub deleted : StorageServer → FileSystem → Bytes → FileSystem
deleted ss fs f = without (without fs (file_path ss f)) (deleted_undo_path ss f)

read_deleted :
    (ss : StorageServer) (fs : FileSystem) (f : Bytes)
    → handle_ss_read ss (deleted ss fs f) f ≡ not_found
unfolding handle_ss_read
read_deleted ss fs f = ground (arith, str_eq_refl (file_path ss f))

undo_deleted :
    (ss : StorageServer) (fs : FileSystem) (f : Bytes)
    → undo_path ss f ≡ deleted_undo_path ss f
    → (handle_ss_undo ss (deleted ss fs f) f).reply ≡ no_undo
unfolding handle_ss_undo perform_undo
undo_deleted ss fs f e = ground (arith, e, str_eq_refl (deleted_undo_path ss f))

-- The backup that is taken away is the one that WRITE makes.
deleted_undo_path_eq :
    (ss : StorageServer) (f : Bytes) → Fits ss f → undo_path ss f ≡ deleted_undo_path ss f
unfolding undo_path deleted_undo_path file_path
deleted_undo_path_eq ss f h =
    let path = ss.storage_path ++ codes "/" ++ f in
    let n : length path ≡ length ss.storage_path + 1 + length f = path_length ss f in
    ap (λ w. take 1023 (w ++ codes ".undo")) (sym (take_all 1023 path (omega arith)))

-- After the name server's `DELETE` of a file, whose name has no blank, whose paths are not cut, and
-- which can be unlinked with its backup, a client that reads the file is told that there is none, and one that undoes a change that there
-- is nothing to undo.
pub delete-read_undo :
    (ss : StorageServer) (fs : FileSystem) (f : Bytes)
    → IsWord f
    → Fits ss f
    → fs.can_unlink (file_path ss f) ≡ true
    → fs.can_unlink (deleted_undo_path ss f) ≡ true
    → let fs' = (ss_nm_command ss fs (codes "DELETE " ++ f)).1 in
      ((ss_handle_client_connection ss fs' (codes "READ " ++ f)).answer ≡ reply not_found)
      × ((ss_handle_client_connection ss fs' (codes "UNDO " ++ f)).answer ≡ reply no_undo)
delete-read_undo ss fs f h k main backup =
    let gone : (ss_nm_command ss fs (codes "DELETE " ++ f)).1 ≡ deleted ss fs f =
      ap (λ (r : Option Ack × FileSystem). r.1) (delete_command ss fs f h)
      ∙ rw (main, backup) refl in
    let (reads, streams, writes, undoes) = connection-requests ss (deleted ss fs f) f (pos 0) h in
    rw gone (
      ap (λ (r : Served). r.answer) reads ∙ ap reply (read_deleted ss fs f),
      ap (λ (r : Served). r.answer) undoes
          ∙ ap reply (undo_deleted ss fs f (deleted_undo_path_eq ss f k)),
    )
