-- ===== src/NameServer/Texts/Readable.antt =====
-- What a user sees of VIEW (name_server/client_handler.c): which files are listed, and how often.
use mathlib.Core.List.{map}
use distributed_concurrent_f.Prelude.{
  ◌≤◌, ◌<◌, ℕ, zero, suc, ◌+◌, Bool, true, false, ◌&&◌, ◌||◌, List, [], ◌∷◌, ◌++◌, append_assoc,
  append-nil, Option, none, some, Bytes, length, length-append, get_or, str_eq_iff, ltb, leb, ◌==◌,
  if◌then◌else◌, ◌≡◌, ◌≢◌, ◌∙◌, refl, arith, Bool-cases, inl, inr,
}
use distributed_concurrent_f.CString.Lines.{unlines}
use distributed_concurrent_f.HashTable.{HashTable, ht_size, ht_get, hash_function}
use distributed_concurrent_f.HashTable.Chain.{FileMetadata, chain_find, has_file, is_unique}
use distributed_concurrent_f.HashTable.Laws.{IsTable}
use distributed_concurrent_f.Trie.Listing.{occurrences, occurrences-append}
use distributed_concurrent_f.NameServer.{
  NameServer, file_list, send_message, files_from, all_files, check_access,
}
use distributed_concurrent_f.NameServer.Handlers.{has_char, visible, handle_view}
use distributed_concurrent_f.NameServer.Reload.{hash_lt}
use distributed_concurrent_f.NameServer.Texts.{Clock, view_lines, view_text, no_files, message_text}

abbrev pub names : List FileMetadata → List Bytes
names files = map (λ m. m.filename) files

view_lines-names :
    (clock : Clock) (files : List FileMetadata)
    → view_lines clock false files ≡ unlines (names files)
unfolding view_lines unlines
view_lines-names clock [] = refl
view_lines-names clock (m ∷ files) =
    rw (view_lines-names clock files) (append_assoc m.filename (10 ∷ []) _)

-- The text without details: the names, one to a line, or the message that there are none.
abbrev pub shown_names : List Bytes → Bytes
shown_names [] = no_files
shown_names (w ∷ l) = unlines (w ∷ l)

view_text-names :
    (clock : Clock) (files : List FileMetadata)
    → view_text clock false files ≡ shown_names (names files)
unfolding view_text view_lines unlines
view_text-names clock [] = refl
view_text-names clock (m ∷ files) =
    let full : length (unlines (names (m ∷ files))) ≢ 0 =
      λ e. absurd (omega (arith, e, length-append m.filename (10 ∷ unlines (names files)))) in
    rw (append-nil (view_lines clock false (m ∷ files)), view_lines-names clock (m ∷ files))
      (ground (arith, full))

-- The file is shown to the user.
abbrev pub shows : Bool → Bytes → Option FileMetadata → ℕ
shows show_all username none = 0
shows show_all username (some m) = if show_all || check_access m username b'R' then 1 else 0

visible-none :
    (show_all : Bool) (username q : Bytes) (chain : List FileMetadata)
    → has_file q chain ≡ false
    → occurrences (names (visible show_all username chain)) q ≡ 0
unfolding occurrences visible has_file
visible-none show_all username q [] h = refl
visible-none show_all username q (m ∷ chain) h =
    ground (arith, visible-none show_all username q chain)

visible-chain :
    (show_all : Bool) (username q : Bytes) (chain : List FileMetadata)
    → is_unique chain ≡ true
    → occurrences (names (visible show_all username chain)) q
      ≡ shows show_all username (chain_find q chain)
unfolding occurrences visible is_unique chain_find
visible-chain show_all username q [] h = refl
visible-chain show_all username q (m ∷ chain) h = ground (
  arith,
  visible-chain show_all username q chain,
  visible-none show_all username q chain,
  str_eq_iff m.filename q,
)

visible-append :
    (show_all : Bool) (username : Bytes) (l k : List FileMetadata)
    → names (visible show_all username (l ++ k))
      ≡ names (visible show_all username l) ++ names (visible show_all username k)
unfolding visible
visible-append show_all username [] k = refl
visible-append show_all username (m ∷ l) k = ground (arith, visible-append show_all username l k)

-- A name that hashes elsewhere is not in the chain.
visible-elsewhere :
    (show_all : Bool) (username q : Bytes) (t : HashTable) (i : ℕ)
    → IsTable t
    → hash_function q ≢ i
    → occurrences (names (visible show_all username (t i))) q ≡ 0
visible-elsewhere show_all username q t i v ne = elim (Bool-cases (has_file q (t i))) [
  | inl here ↦ absurd (ne (v.placed i q here))
  | inr out ↦ visible-none show_all username q (t i) out
]

visible-files_from :
    (show_all : Bool) (username q : Bytes) (t : HashTable) (n i : ℕ)
    → IsTable t
    → occurrences (names (visible show_all username (files_from n i t))) q ≡ (
        if leb i (hash_function q) && ltb (hash_function q) (i + n)
        then shows show_all username (ht_get t q)
        else 0)
unfolding files_from ht_get
visible-files_from show_all username q t zero i v = unfold visible occurrences in ground arith
visible-files_from show_all username q t (suc n) i v =
    let rest = visible-files_from show_all username q t n (i + 1) v in
    rw
      (
        visible-append,
        occurrences-append (names (visible show_all username (t i)))
            (names (visible show_all username (files_from n (i + 1) t))) q,
      )
      (elim (Bool-cases (hash_function q == i)) [
        | inl here ↦
            let e : hash_function q ≡ i = ground arith in
            ground (arith, rest, e, visible-chain show_all username q (t i) (v.unique i))
        | inr elsewhere ↦
            ground (arith, rest, visible-elsewhere show_all username q t i v (ground arith))
      ])

-- The files that are shown take no more room than all files.
visible-length :
    (clock : Clock) (show_all : Bool) (username : Bytes) (files : List FileMetadata)
    → length (view_lines clock false (visible show_all username files))
      ≤ length (view_lines clock false files)
unfolding visible view_lines
visible-length clock show_all username [] = omega arith
visible-length clock show_all username (m ∷ files) = ground (
  arith,
  length-append (m.filename ++ 10 ∷ []) (view_lines clock false files),
  length-append (m.filename ++ 10 ∷ []) (view_lines clock false (visible show_all username files)),
  visible-length clock show_all username files,
)

names_text-fits :
    (clock : Clock) (files : List FileMetadata)
    → length (view_lines clock false files) < 40960
    → length (view_text clock false files) < 40960
unfolding view_text
names_text-fits clock files h = rw (append-nil (view_lines clock false files)) (ground (arith, h))

-- VIEW is answered by a list of files. Where the names of all files, with a line end each, fit the
-- buffer of 40960 bytes, the text of it without details fits too: the names of the files that the user
-- may read, each once and on a line of its own, or a line that says that there are none. With the flag
-- `a` all files are listed.
pub handle_view-names :
    (nm : NameServer) (sock : ℕ) (username : Bytes) (args : List Bytes) (clock : Clock)
    → IsTable nm.file_table
    → length (view_lines clock false (all_files nm.file_table)) < 40960
    → (files : List FileMetadata) × (handle_view nm sock username args
        ≡ send_message nm sock (file_list (has_char (get_or args 1 []) b'l') files))
      × (length (message_text clock (file_list false files)) < 40960)
      × (message_text clock (file_list false files) ≡ shown_names (names files))
      × ((q : Bytes)
          → occurrences (names files) q
            ≡ shows (has_char (get_or args 1 []) b'a') username (ht_get nm.file_table q))
unfolding handle_view message_text
handle_view-names nm sock username args clock v room =
    let show_all = has_char (get_or args 1 []) b'a' in
    let files = visible show_all username (all_files nm.file_table) in
    (
      files,
      refl,
      names_text-fits clock files
          (omega (arith, room, visible-length clock show_all username (all_files nm.file_table))),
      view_text-names clock files,
      unfold all_files in
          λ q.
            visible-files_from show_all username q nm.file_table ht_size 0 v
            ∙ ground (arith, hash_lt q),
    )
