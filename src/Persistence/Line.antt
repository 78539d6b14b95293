-- ===== src/Persistence/Line.antt =====
-- The line of a saved file, printed and read back.
use distributed_concurrent_f.Prelude.{
  ℕ, suc, ◌≤◌, false, ◌||◌, List, [], ◌∷◌, ◌++◌, ◌≡◌, ◌≢◌, ◌∙◌, refl, ap, arith, Bytes, ◌==◌, ℤ,
  pos, negsuc, All, All-imp, length, take_all, copy_name_short, none, some,
}
use distributed_concurrent_f.CString.{split_string}
use distributed_concurrent_f.CString.Fields.{
  IsField, split_string-cons, split_string-fields, split_string-delimiter, fields-All,
}
use distributed_concurrent_f.CString.Lines.{IsLine, trim_newline_line}
use distributed_concurrent_f.Decimal.{
  IsDigit, print_int, print_nat, print_nat-IsDigit, print_int-ne-nil, atoi-print_int,
}
use distributed_concurrent_f.AccessList.{AccessNode, add_access}
use distributed_concurrent_f.AccessList.Laws.{Unique}
use distributed_concurrent_f.HashTable.Chain.{FileMetadata}
use distributed_concurrent_f.Persistence.{access_text, file_line, load_line}
use distributed_concurrent_f.Persistence.Entry.{
  full, IsLineChar, IsNameChar, IsName, IsEntry, name-line, load_entries-access_text, add_all,
  access_text-line,
}

-- What can be saved of a file: its names and its address are no longer than their fields, and hold
-- none of the bytes that the format uses; the line fits the buffer that reads it.
pub record IsSaved (m : FileMetadata) : Type 0 where
  pub filename : IsName m.filename
  pub owner : IsName m.owner
  pub address : (m.ss_ip ≢ []) × All IsNameChar m.ss_ip × (length m.ss_ip ≤ 15)
  pub entries : All IsEntry m.access_list
  pub unique : Unique m.access_list
  pub fits : length (file_line m) ≤ 4094

-- The metadata that is read back: the times are new, and the list starts with the owner.
abbrev pub reloaded : ℤ → FileMetadata → FileMetadata
reloaded now m = record m {
  access_list = add_all (add_access [] m.owner b'W') m.access_list;
  created_at = now;
  last_accessed = now;
}

digit_char : (c : ℕ) → IsDigit c → IsLineChar c
digit_char c h = ground arith

print_nat-line : (n : ℕ) → All IsLineChar (print_nat n)
print_nat-line n = All-imp IsDigit IsLineChar digit_char (print_nat n) (print_nat-IsDigit n)

print_int-line : (z : ℤ) → All IsLineChar (print_int z)
unfolding print_int
print_int-line (pos n) = print_nat-line n
print_int-line (negsuc n) = (refl, print_nat-line (suc n))

bar-IsField : (w : Bytes) → w ≢ [] → All IsLineChar w → IsField b'|' w
bar-IsField w n h = (n, All-imp IsLineChar (λ c. (c == b'|') ≡ false) (λ c k. ground arith) w h)

no_end : (w : Bytes) → All IsLineChar w → All (λ c. (c == 13 || c == 10) ≡ false) w
no_end w h = All-imp IsLineChar (λ c. (c == 13 || c == 10) ≡ false) (λ c k. ground arith) w h

abbrev numbers : FileMetadata → List Bytes
numbers m =
    print_int m.size
    ∷ print_int m.word_count
    ∷ print_int m.char_count
    ∷ print_int m.last_modified
    ∷ []

abbrev parts_of : FileMetadata → List Bytes
parts_of m = m.owner ∷ m.ss_ip ∷ print_int m.ss_client_port ∷ access_text m.access_list ∷ numbers m

access_text-ne-nil : (l : List AccessNode) → l ≢ [] → access_text l ≢ []
unfolding access_text
access_text-ne-nil [] h = absurd (h refl)
access_text-ne-nil (n ∷ l) h = full n.username _ b','

-- The nine parts come back, if the access list is not empty.
file_line_parts :
    (m : FileMetadata)
    → IsSaved m
    → m.access_list ≢ []
    → split_string (file_line m) b'|' ≡ m.filename ∷ parts_of m
unfolding file_line
file_line_parts m s h =
    let number = λ (z : ℤ). bar-IsField (print_int z) (print_int-ne-nil z) (print_int-line z) in
    split_string-fields b'|' m.filename (parts_of m)
      (bar-IsField m.filename s.filename.0 (name-line m.filename s.filename.1))
      (
        bar-IsField m.owner s.owner.0 (name-line m.owner s.owner.1),
        (
          bar-IsField m.ss_ip s.address.0 (name-line m.ss_ip s.address.1),
          (
            number m.ss_client_port,
            (
              bar-IsField (access_text m.access_list) (access_text-ne-nil m.access_list h)
                  (access_text-line m.access_list s.entries),
              (
                number m.size,
                (number m.word_count, (number m.char_count, (number m.last_modified, tt))),
              ),
            ),
          ),
        ),
      )

pub file_line-IsLine : (m : FileMetadata) → IsSaved m → IsLine (file_line m)
unfolding file_line
file_line-IsLine m s =
    let NotEnd = λ (c : ℕ). (c == 13 || c == 10) ≡ false in
    let name = λ (w : Bytes) (h : All IsNameChar w). no_end w (name-line w h) in
    let number = λ (z : ℤ). no_end (print_int z) (print_int-line z) in
    (
      fields-All NotEnd b'|' m.filename (parts_of m) refl (name m.filename s.filename.1) (
        name m.owner s.owner.1,
        (
          name m.ss_ip s.address.1,
          (
            number m.ss_client_port,
            (
              no_end (access_text m.access_list) (access_text-line m.access_list s.entries),
              (
                number m.size,
                (number m.word_count, (number m.char_count, (number m.last_modified, tt))),
              ),
            ),
          ),
        ),
      ),
      s.fits,
    )

-- The line of a file whose access list is not empty is read back, but for the times.
pub load_line-file_line :
    (now : ℤ) (m : FileMetadata)
    → IsSaved m
    → m.access_list ≢ []
    → load_line now (file_line m ++ 10 ∷ []) ≡ some (reloaded now m)
unfolding load_line
load_line-file_line now m s h =
    rw
      (
        trim_newline_line (file_line m) (file_line-IsLine m s).0,
        file_line_parts m s h,
        copy_name_short m.filename s.filename.2,
        copy_name_short m.owner s.owner.2,
        take_all 15 m.ss_ip s.address.2,
        load_entries-access_text (add_access [] m.owner b'W') m.access_list s.entries,
      )
      (simp atoi-print_int)

-- Without an access list there are eight parts.
empty_parts :
    (m : FileMetadata)
    → IsSaved m
    → access_text m.access_list ≡ []
    → split_string (file_line m) b'|'
      ≡ m.filename ∷ m.owner ∷ m.ss_ip ∷ print_int m.ss_client_port ∷ numbers m
unfolding file_line
empty_parts m s h =
    let number = λ (z : ℤ). bar-IsField (print_int z) (print_int-ne-nil z) (print_int-line z) in
    split_string-cons b'|' m.filename _
      (bar-IsField m.filename s.filename.0 (name-line m.filename s.filename.1))
    ∙ rw
        (
          split_string-cons b'|' m.owner _
              (bar-IsField m.owner s.owner.0 (name-line m.owner s.owner.1)),
          split_string-cons b'|' m.ss_ip _
              (bar-IsField m.ss_ip s.address.0 (name-line m.ss_ip s.address.1)),
          split_string-cons b'|' (print_int m.ss_client_port) _ (number m.ss_client_port),
          h,
          split_string-delimiter,
          split_string-fields b'|' (print_int m.size)
              (print_int m.word_count ∷ print_int m.char_count ∷ print_int m.last_modified ∷ [])
              (number m.size)
              (number m.word_count, (number m.char_count, (number m.last_modified, tt))),
        )
        refl

-- The line of a file whose access list is empty has one part less, and is passed over: to `strtok_r`
-- two bars side by side are one.
pub load_line-eq-none :
    (now : ℤ) (m : FileMetadata)
    → IsSaved m
    → m.access_list ≡ []
    → load_line now (file_line m ++ 10 ∷ []) ≡ none
unfolding load_line
load_line-eq-none now m s h =
    let no_text : access_text m.access_list ≡ [] =
      ap access_text h ∙ (unfold access_text in refl) in
    rw (trim_newline_line (file_line m) (file_line-IsLine m s).0, empty_parts m s no_text) refl
