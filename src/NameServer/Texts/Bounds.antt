-- ===== src/NameServer/Texts/Bounds.antt =====
-- The buffers of VIEW, INFO and LIST (name_server/client_handler.c), which `strcat` fills without a check:
-- how many files, entries and users always fit.
use distributed_concurrent_f.Prelude.{
  ℕ, ◌+◌, ◌-◌, ◌*◌, ◌≤◌, ◌<◌, Bool, true, false, List, [], ◌∷◌, ◌++◌, Bytes, codes, ℤ, length,
  length-append, append-nil, length-take, take, max_name, All, ◌≡◌, arith, if◌then◌else◌,
}
use distributed_concurrent_f.Decimal.{print_int}
use distributed_concurrent_f.AccessList.{AccessNode, access_entry, format_loop, format_access_list}
use distributed_concurrent_f.HashTable.Chain.{FileMetadata}
use distributed_concurrent_f.NameServer.Texts.{
  Clock, view_row, view_lines, view_text, rule_line, heading, heading_rule, stats_text, info_text,
  user_lines, user_list_text,
}

-- `strftime` fits its buffer of 100 bytes.
abbrev pub FitsTimes : Clock → Type 0
FitsTimes clock = (t : ℤ) → length (clock.seconds t) ≤ 99

-- The name and the owner fit their fields.
abbrev pub HasShortNames : FileMetadata → Type 0
HasShortNames m = (length m.filename ≤ max_name) × (length m.owner ≤ max_name)

length-take_le : (n : ℕ) (xs : Bytes) → length (take n xs) ≤ n
length-take_le n xs = omega (arith, length-take n xs)

length-take_shorter : (n : ℕ) (xs : Bytes) → length (take n xs) ≤ length xs
length-take_shorter n xs = omega (arith, length-take n xs)

length-view_row : (clock : Clock) (m : FileMetadata) → length (view_row clock m) ≤ 511
unfolding view_row
length-view_row clock m = search length-take_le

length-view_lines :
    (clock : Clock) (show_details : Bool) (files : List FileMetadata)
    → All HasShortNames files
    → length (view_lines clock show_details files) ≤ 511 * length files
unfolding view_lines
length-view_lines clock d [] h = omega arith
length-view_lines clock true (m ∷ files) h = omega (
  arith,
  length-append (view_row clock m) (view_lines clock true files),
  length-view_row clock m,
  length-view_lines clock true files h.1,
)
length-view_lines clock false (m ∷ files) h = omega (
  arith,
  length-append (m.filename ++ 10 ∷ []) (view_lines clock false files),
  length-append m.filename (10 ∷ []),
  h.0.0,
  length-view_lines clock false files h.1,
)

-- The lines with what stands around them.
abbrev table : Bool → Bytes → Bytes
table show_details lines =
    (if show_details then rule_line ++ heading ++ heading_rule else [])
    ++ lines
    ++ (if show_details then rule_line else [])

length-table :
    (show_details : Bool) (lines : Bytes) → length (table show_details lines) ≤ 324 + length lines
length-table true lines =
    rw
      (
        length-append (rule_line ++ heading ++ heading_rule ++ lines) rule_line,
        length-append (rule_line ++ heading ++ heading_rule) lines,
      )
      (omega arith)
length-table false lines = rw (append-nil lines) (omega arith)

view_text-fits :
    (clock : Clock) (show_details : Bool) (files : List FileMetadata)
    → All HasShortNames files
    → length files ≤ 79
    → length (view_text clock show_details files) < 40960
unfolding view_text
view_text-fits clock show_details files h few = ground (
  arith,
  length-table show_details (view_lines clock show_details files),
  length-view_lines clock show_details files h,
)

length-format_loop :
    (l : List AccessNode) (buffer : Bytes)
    → length (format_loop l buffer) ≤ length buffer + 265 * length l
unfolding format_loop access_entry
length-format_loop [] buffer = omega arith
length-format_loop (n ∷ l) buffer = omega (
  arith,
  length-format_loop l (buffer ++ access_entry n),
  length-append buffer (access_entry n),
  length-take 265 (n.username ++ codes " (" ++ n.permission ∷ [] ++ codes "), "),
)

length-format_access_list : (l : List AccessNode) → length (format_access_list l) ≤ 265 * length l
unfolding format_access_list
length-format_access_list l =
    ground (
      arith,
      length-format_loop l [],
      length-take (length (format_loop l []) - 2) (format_loop l []),
    )

length-parts :
    (a b c d e f g h i j k l : Bytes)
    → length (a ++ b ++ c ++ d ++ e ++ f ++ g ++ h ++ i ++ j ++ k ++ l)
      ≡ length a
        + length b
        + length c
        + length d
        + length e
        + length f
        + length g
        + length h
        + length i
        + length j
        + length k
        + length l
length-parts a b c d e f g h i j k l = simp length-append

info_text-fits :
    (clock : Clock) (m : FileMetadata)
    → FitsTimes clock
    → HasShortNames m
    → length m.access_list ≤ 15
    → length (info_text clock m) < 8192
unfolding info_text stats_text
info_text-fits clock m times h few =
    let first = codes "--- File Info: " ++ m.filename ++ codes " ---\n" in
    let stats =
      codes "\n  Size: "
      ++ print_int m.size
      ++ codes " bytes\n  Words: "
      ++ print_int m.word_count
      ++ codes "\n  Chars: "
      ++ print_int m.char_count in
    omega (
      arith,
      length-parts (take 8191 first) (codes "  Owner: ") m.owner (codes "\n  Created: ")
          (clock.seconds m.created_at) (codes "\n  Modified: ") (clock.seconds m.last_modified)
          (codes "\n  Accessed: ") (clock.seconds m.last_accessed) (take 199 stats)
          (codes "\n  Access: ") (format_access_list m.access_list),
      length-take_shorter 8191 first,
      length-append (codes "--- File Info: " ++ m.filename) (codes " ---\n"),
      length-take_le 199 stats,
      times m.created_at,
      times m.last_modified,
      times m.last_accessed,
      length-format_access_list m.access_list,
    )

length-user_lines :
    (users : List Bytes)
    → All (λ u. length u ≤ max_name) users
    → length (user_lines users) ≤ 256 * length users
unfolding user_lines
length-user_lines [] h = omega arith
length-user_lines (u ∷ users) h =
    omega (arith, length-append u (10 ∷ user_lines users), length-user_lines users h.1, h.0)

user_list_text-fits :
    (users : List Bytes)
    → All (λ u. length u ≤ max_name) users
    → length users ≤ 31
    → length (user_list_text users) < 8192
unfolding user_list_text
user_list_text-fits users h few = omega (
  arith,
  length-append (codes "--- Registered Users ---\n") (user_lines users),
  length-user_lines users h,
)

-- The buffers of VIEW, INFO and LIST hold their texts, with the NUL behind them, for up to 79 files,
-- 15 entries of the access list and 31 users, if names have at most 255 bytes and a time at most 99.
pub texts_fit :
    (clock : Clock) (show_details : Bool) (files : List FileMetadata) (m : FileMetadata)
    (users : List Bytes)
    → FitsTimes clock
    → All HasShortNames files
    → HasShortNames m
    → All (λ u. length u ≤ max_name) users
    → length files ≤ 79
    → length m.access_list ≤ 15
    → length users ≤ 31
    → (length (view_text clock show_details files) < 40960)
      × (length (info_text clock m) < 8192)
      × (length (user_list_text users) < 8192)
texts_fit clock show_details files m users times named owner short few entries registered = (
  view_text-fits clock show_details files named few,
  info_text-fits clock m times owner entries,
  user_list_text-fits users short registered,
)
