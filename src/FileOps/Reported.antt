-- ===== src/FileOps/Reported.antt =====
-- A WRITE from the storage server to the name server: the `INFO_UPDATE` that `handle_ss_write` of
-- storage_server/file_ops.c sends, read by name_server/ss_handler.c.
use mathlib.Core.List.{map}
use mathlib.Core.Option
use distributed_concurrent_f.Prelude.{
  ◌≤◌, true, false, List, [], ◌∷◌, ◌++◌, some, ◌≡◌, ◌∙◌, refl, ap, Bytes, codes, ℤ, pos, length,
  max_name, take, take_all, str_eq, if◌then◌else◌,
}
use distributed_concurrent_f.CString.{trim_newline, split_string}
use distributed_concurrent_f.CString.Fields.{IsField, fields, split_string-fields}
use distributed_concurrent_f.Decimal.{print_int, print_int-IsField, atoi-print_int}
use distributed_concurrent_f.Common.{get_word_count}
use distributed_concurrent_f.HashTable.{ht_get}
use distributed_concurrent_f.HashTable.Chain.{FileMetadata}
use distributed_concurrent_f.StorageServer.{StorageServer}
use distributed_concurrent_f.StorageServer.Locks.{locked, unique_locks}
use distributed_concurrent_f.StorageServer.Log.{IsLog}
use distributed_concurrent_f.UndoHandler.{FileSystem}
use distributed_concurrent_f.FileOps.{
  ack_write, write_ok, InfoUpdate, info_update, file_path, or_empty, apply_updates,
}
use distributed_concurrent_f.FileOps.Write.{Fits, starts}
use distributed_concurrent_f.FileOps.Connection.Laws.{IsWord}
use distributed_concurrent_f.FileOps.Connection.Write.{handle_ss_write, write-typed}
use distributed_concurrent_f.NameServer.{NameServer}
use distributed_concurrent_f.NameServer.SsHandler.{set_stats, nm_handle_ss_message}
use distributed_concurrent_f.NameServer.Registration.{nm_handle_ss_message-sets}
use distributed_concurrent_f.Client.{write_loop}
use distributed_concurrent_f.Client.Session.{updates_of, lines_typed}

-- What `snprintf` prints, without the end of the buffer.
abbrev pub info_words : InfoUpdate → Bytes
info_words u =
    fields 32 (codes "INFO_UPDATE")
      (u.filename ∷ print_int (pos u.size) ∷ print_int (pos u.words) ∷ print_int (pos u.chars) ∷ [])

-- The message of `INFO_UPDATE`.
unfoldable pub info_update_text : InfoUpdate → Bytes
info_update_text u = take 4095 (
    codes "INFO_UPDATE "
    ++ (u.filename
        ++ 32
          ∷ (print_int (pos u.size)
              ++ 32 ∷ (print_int (pos u.words) ++ 32 ∷ print_int (pos u.chars)))))

info_update_words :
    (u : InfoUpdate)
    → IsWord u.filename
    → length (info_words u) ≤ 4095
    → split_string (info_update_text u) 32
      ≡ codes "INFO_UPDATE"
        ∷ u.filename
        ∷ print_int (pos u.size)
        ∷ print_int (pos u.words)
        ∷ print_int (pos u.chars)
        ∷ []
unfolding info_update_text
info_update_words u h fits =
    ap (λ s. split_string s 32) (take_all 4095 (info_words u) fits)
    ∙ split_string-fields 32 (codes "INFO_UPDATE") _ update-IsWord (
      h,
      (
        print_int-IsField 32 (pos u.size) refl,
        (print_int-IsField 32 (pos u.words) refl, (print_int-IsField 32 (pos u.chars) refl, tt)),
      ),
    )
  where
    update-IsWord : IsField 32 (codes "INFO_UPDATE")
    update-IsWord = (
      λ (e : codes "INFO_UPDATE" ≡ []). cc,
      (refl, (refl, (refl, (refl, (refl, (refl, (refl, (refl, (refl, (refl, (refl, tt))))))))))),
    )

-- The name server takes the numbers of the message over.
reported :
    (nm : NameServer) (u : InfoUpdate) (q : Bytes) (now : ℤ)
    → IsWord u.filename
    → length (info_words u) ≤ 4095
    → ht_get (nm_handle_ss_message nm (info_update_text u) now).file_table q ≡ (
        if str_eq q u.filename
        then Option.map
            (set_stats (pos u.size) (pos u.words) (pos u.chars) now)
            (ht_get nm.file_table q)
        else ht_get nm.file_table q)
reported nm u q now h fits =
    nm_handle_ss_message-sets nm (info_update_text u) u.filename (print_int (pos u.size))
      (print_int (pos u.words)) (print_int (pos u.chars)) q now (info_update_words u h fits)
    ∙ rw (atoi-print_int (pos u.size), atoi-print_int (pos u.words), atoi-print_int (pos u.chars))
        refl

-- A WRITE that may start, undisturbed and on a log and locks in good order, ends with the two replies
-- of success, its sentence unlocked, and in the file the text that the updates make which the client
-- typed before `ETIRW`. One message tells the name server, which from then on has the length of that
-- text, as its size and as its count of characters, its count of words, and the time of the message,
-- with everything else of the file and all other files as before. Each update can be applied, the file can be written, its name has no blank, and names, paths
-- and the message are not cut.
pub write-reported :
    (ss : StorageServer) (fs : FileSystem) (f : Bytes) (n : ℤ) (typed : List Bytes) (text : Bytes)
    (nm : NameServer) (q : Bytes) (now : ℤ)
    → Fits ss f
    → length f ≤ max_name
    → IsLog ss
    → unique_locks ss.sentence_locks ≡ true
    → starts ss fs f n ≡ true
    → fs.can_write (file_path ss f) ≡ true
    → apply_updates
        (or_empty (fs.files (file_path ss f)))
        n
        (updates_of (lines_typed (map trim_newline typed)))
      ≡ some text
    → IsWord f
    → length (info_words (info_update f (length text) text)) ≤ 4095
    → let w = handle_ss_write ss fs f n (write_loop typed).sent in
      (w.replies ≡ ack_write ∷ write_ok ∷ [])
      × (w.files.files (file_path ss f) ≡ some text)
      × (locked w.server f n ≡ false)
      × (u : InfoUpdate) × (w.to_nm ≡ u ∷ [])
      × (ht_get (nm_handle_ss_message nm (info_update_text u) now).file_table q ≡ (
          if str_eq q f
          then Option.map
              (λ (m : FileMetadata). record m {
                size = pos (length text);
                word_count = pos (get_word_count text);
                char_count = pos (length text);
                last_modified = now;
              })
              (ht_get nm.file_table q)
          else ht_get nm.file_table q))
unfolding info_update
write-reported ss fs f n typed text nm q now fits short log unique go can e word room =
    let w = write-typed ss fs f n typed text fits short log unique go can e in
    let u = info_update f (length text) text in
    (w.0, w.1, w.2, u, w.3, reported nm u q now word room)
