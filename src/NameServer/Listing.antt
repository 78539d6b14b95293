-- ===== src/NameServer/Listing.antt =====
-- A storage server that connects: what its directory holds is what the name server registers.
use distributed_concurrent_f.Prelude.{
  lists, ℕ, ◌-◌, ◌≤◌, true, false, ◌||◌, List, [], ◌∷◌, ◌++◌, append-nil, append_assoc,
  length-append, take_all, take-append_length, ◌≡◌, ◌≢◌, ◌∙◌, refl, sym, ap, arith, some, Bytes,
  codes, ℤ, length, take, str_eq, ◌==◌, All, All-append, All-imp, Bool-cases, inl, inr,
}
use distributed_concurrent_f.CString.{split_string, tokens_from}
use distributed_concurrent_f.CString.Fields.{IsField, Free, fields, fields-All, split_string-fields}
use distributed_concurrent_f.Decimal.{print_int, print_int-IsField, atoi-print_int}
use distributed_concurrent_f.HashTable.{ht_get}
use distributed_concurrent_f.HashTable.Chain.{FileMetadata}
use distributed_concurrent_f.StorageServer.Scan.{
  is_skipped, scan_loop, ss_scan_directory, init_text, init_message,
}
use distributed_concurrent_f.NameServer.{NameServer}
use distributed_concurrent_f.NameServer.SsHandler.{listed_files, register_ss, nm_handle_ss_init}
use distributed_concurrent_f.NameServer.Registration.{online, register_ss-online}

-- The files that a scan reports.
unfoldable pub scanned : List Bytes → List Bytes
scanned [] = []
scanned (name ∷ dir) = elim (is_skipped name) [ true ↦ scanned dir | false ↦ name ∷ scanned dir ]

abbrev listing : List Bytes → Bytes
listing [] = []
listing (w ∷ ws) = fields b',' w ws

-- The rest of a listing, behind a first name.
abbrev behind : List Bytes → Bytes
behind [] = []
behind (w ∷ ws) = b',' ∷ fields b',' w ws

fields-behind : (w : Bytes) (ws : List Bytes) → fields b',' w ws ≡ w ++ behind ws
fields-behind w [] = sym (append-nil w)
fields-behind w (v ∷ ws) = refl

scan_rest : (dir : List Bytes) (acc : Bytes) → scan_loop dir false acc ≡ acc ++ behind (scanned dir)
unfolding scan_loop scanned
scan_rest [] acc = sym (append-nil acc)
scan_rest (name ∷ dir) acc = elim (Bool-cases (is_skipped name)) [
  | inl e ↦ rw (e, scan_loop, scanned) (scan_rest dir acc)
  | inr e ↦
      rw (e, scan_loop, scanned)
        (scan_rest dir (acc ++ b',' ∷ [] ++ name)
          ∙ append_assoc (acc ++ b',' ∷ []) name (behind (scanned dir))
          ∙ append_assoc acc (b',' ∷ []) (name ++ behind (scanned dir))
          ∙ rw (fields-behind name (scanned dir)) refl)
]

scan_all : (dir : List Bytes) (acc : Bytes) → scan_loop dir true acc ≡ acc ++ listing (scanned dir)
unfolding scan_loop scanned
scan_all [] acc = sym (append-nil acc)
scan_all (name ∷ dir) acc = elim (Bool-cases (is_skipped name)) [
  | inl e ↦ rw (e, scan_loop, scanned) (scan_all dir acc)
  | inr e ↦
      rw (e, scan_loop, scanned)
        (scan_rest dir (acc ++ name)
          ∙ append_assoc acc name (behind (scanned dir))
          ∙ rw (fields-behind name (scanned dir)) refl)
]

take_front : (a : Bytes) (c : ℕ) → take (length (a ++ c ∷ []) - 1) (a ++ c ∷ []) ≡ a
take_front a c =
    let n : length (a ++ c ∷ []) - 1 ≡ length a = omega (arith, length-append a (c ∷ [])) in
    rw n (take-append_length a (c ∷ []))

-- A name that the messages can carry.
abbrev pub IsFileName : Bytes → Type 0
IsFileName w = (w ≢ []) × All (λ c. (c == 32 || c == b',') ≡ false) w

comma-IsField : (w : Bytes) → IsFileName w → IsField b',' w
comma-IsField w h = (
  h.0,
  All-imp (λ c. (c == 32 || c == b',') ≡ false) (λ c. (c == b',') ≡ false) (λ c k. ground arith) w
      h.1,
)

commas : (ws : List Bytes) → All IsFileName ws → All (IsField b',') ws
commas ws h = All-imp IsFileName (IsField b',') comma-IsField ws h

split_listing : (ws : List Bytes) → All IsFileName ws → split_string (listing ws) b',' ≡ ws
split_listing [] h = unfold split_string tokens_from in refl
split_listing (w ∷ ws) h = split_string-fields b',' w ws (comma-IsField w h.0) (commas ws h.1)

blank-Free : (ws : List Bytes) → All IsFileName ws → All (Free 32) ws
blank-Free ws h =
    All-imp IsFileName (Free 32)
      (λ w k.
        All-imp (λ c. (c == 32 || c == b',') ≡ false) (λ c. (c == 32) ≡ false) (λ c e. ground arith)
          w k.1)
      ws h

abbrev list_text : List Bytes → Bytes
list_text ws = codes "[" ++ listing ws ++ codes "]"

ss_scan_directory-listing :
    (dir : List Bytes) → ss_scan_directory (some dir) ≡ list_text (scanned dir)
unfolding ss_scan_directory
ss_scan_directory-listing dir = rw (scan_all dir (codes "["))

listed_files-list_text : (ws : List Bytes) → All IsFileName ws → listed_files (list_text ws) ≡ ws
unfolding listed_files
listed_files-list_text ws h = rw (take_front (b'[' ∷ listing ws) b']') (split_listing ws h)

list_text-IsField : (ws : List Bytes) → All IsFileName ws → IsField 32 (list_text ws)
list_text-IsField ws h = (
  λ (e : list_text ws ≡ []). cc,
  (refl, All-append (λ c. (c == 32) ≡ false) (listing ws) (codes "]") (free ws h) (refl, tt)),
)
  where
    free : (ws : List Bytes) → All IsFileName ws → Free 32 (listing ws)
    free [] k = tt
    free (w ∷ ws) k =
        fields-All (λ c. (c == 32) ≡ false) b',' w ws refl (blank-Free (w ∷ ws) k).0
          (blank-Free (w ∷ ws) k).1

init_words :
    (port : ℤ) (dir : List Bytes)
    → All IsFileName (scanned dir)
    → split_string (init_text port (some dir)) 32
      ≡ codes "INIT_SS" ∷ print_int port ∷ list_text (scanned dir) ∷ []
unfolding init_text
init_words port dir h = rw (ss_scan_directory-listing dir) (
    split_string-fields 32 (codes "INIT_SS") (print_int port ∷ list_text (scanned dir) ∷ [])
      (λ (e : codes "INIT_SS" ≡ []). cc, (refl, (refl, (refl, (refl, (refl, (refl, (refl, tt))))))))
      (print_int-IsField 32 port refl, (list_text-IsField (scanned dir) h, tt)))

-- The message that a storage server sends when it connects makes the name server register it with
-- its port and with the names in its directory, but for `.`, `..` and those that contain `.undo`,
-- if the names hold no blank and no comma and the message fits its buffer.
pub init-registers :
    (nm : NameServer) (sock : ℕ) (ip : Bytes) (port : ℤ) (dir : List Bytes)
    → All IsFileName (scanned dir)
    → length (init_text port (some dir)) ≤ 4095
    → nm_handle_ss_init nm sock ip (init_message port (some dir))
      ≡ register_ss nm sock ip port (scanned dir)
unfolding nm_handle_ss_init str_eq
init-registers nm sock ip port dir h fits =
    rw
      (
        take_all 4095 (init_text port (some dir)) fits,
        init_words port dir h,
        atoi-print_int port,
        listed_files-list_text (scanned dir) h,
      )
      refl

-- Once a storage server has connected, whatever its address, each file that its scan reports and
-- that the name server knows is online, if the names hold no blank and no comma and the message
-- fits its buffer.
pub known-online :
    (nm : NameServer) (sock : ℕ) (ip : Bytes) (port : ℤ) (dir : List Bytes) (q : Bytes)
    (m : FileMetadata)
    → All IsFileName (scanned dir)
    → length (init_text port (some dir)) ≤ 4095
    → lists (scanned dir) q ≡ true
    → ht_get nm.file_table q ≡ some m
    → online (nm_handle_ss_init nm sock ip (init_message port (some dir))) q ≡ true
known-online nm sock ip port dir q m h fits listed e =
    ap (λ (r : NameServer). online r q) (init-registers nm sock ip port dir h fits)
    ∙ register_ss-online nm sock ip port (scanned dir) q m listed e
