-- ===== src/NameServer/Texts.antt =====
-- The texts of the answers of the name server (name_server/client_handler.c): the tables of VIEW, INFO
-- and LIST, and every other message as it is sent. `Clock` is `strftime` of `localtime` in the two
-- formats that are used. The buffers of the tables grow here; Texts/Bounds is about their sizes.
pub mod Bounds
pub mod Readable
use distributed_concurrent_f.Prelude.{
  ℕ, zero, suc, ◌-◌, Bool, true, false, List, [], ◌∷◌, ◌++◌, Bytes, codes, ℤ, length, take, ◌==◌,
  if◌then◌else◌,
}
use distributed_concurrent_f.Decimal.{print_int}
use distributed_concurrent_f.AccessList.{format_access_list}
use distributed_concurrent_f.HashTable.Chain.{FileMetadata}
use distributed_concurrent_f.NameServer.{
  Message, create_file, delete_file, usage, bad_flag, not_owner, denied, read_denied, no_file,
  exists, invalid_init, invalid_client, invalid_first, no_servers, offline, created, deleted,
  granted, removed, go_to, file_info, file_list, unknown_command, output, user_list,
}
use distributed_concurrent_f.NameServer.Messages.{create_text, delete_text, go_to_text}

pub record Clock : Type 0 where
  pub minutes : ℤ → Bytes  -- %Y-%m-%d %H:%M
  pub seconds : ℤ → Bytes  -- %Y-%m-%d %H:%M:%S

abbrev pub blanks : ℕ → Bytes
blanks zero = []
blanks (suc n) = 32 ∷ blanks n

-- `%-<width>s`
unfoldable pub left_justified : ℕ → Bytes → Bytes
left_justified width s = s ++ blanks (width - length s)

-- A line of the table, in a buffer of 512 bytes.
unfoldable pub view_row : Clock → FileMetadata → Bytes
unfolding left_justified
view_row clock meta = take 511 (
    codes "| "
    ++ left_justified 20 meta.filename
    ++ codes " | "
    ++ left_justified 9 meta.owner
    ++ codes " | "
    ++ left_justified 8 (print_int meta.size)
    ++ codes " | "
    ++ left_justified 5 (print_int meta.word_count)
    ++ codes " | "
    ++ left_justified 5 (print_int meta.char_count)
    ++ codes " | "
    ++ clock.minutes meta.last_modified
    ++ 10 ∷ [])

abbrev pub rule_line : Bytes
rule_line =
    codes "--------------------------------------------------------------------------------\n"

abbrev pub heading : Bytes
heading = codes "| Filename             | Owner     | Size     | Words | Chars | Last Modified\n"

abbrev pub heading_rule : Bytes
heading_rule =
    codes "|----------------------|-----------|----------|-------|-------|-------------------\n"

abbrev pub no_files : Bytes
no_files = codes "(No files to display)\n"

-- The loop over the files that are shown.
unfoldable pub view_lines : Clock → Bool → List FileMetadata → Bytes
unfolding view_row
view_lines clock show_details [] = []
view_lines clock show_details (m ∷ files) =
    (if show_details then view_row clock m else m.filename ++ 10 ∷ [])
    ++ view_lines clock show_details files

-- The response is put together by `strcat` in a buffer of 40960 bytes, which holds it if it is shorter
-- than that; this is the text that is sent then.
unfoldable pub view_text : Clock → Bool → List FileMetadata → Bytes
unfolding view_lines
view_text clock show_details files =
    let response =
      (if show_details then rule_line ++ heading ++ heading_rule else [])
      ++ view_lines clock show_details files
      ++ (if show_details then rule_line else []) in
    if length response == 0 then no_files else response

-- `char stats_buf[200]`
unfoldable pub stats_text : FileMetadata → Bytes
stats_text meta = take 199 (
    codes "\n  Size: "
    ++ print_int meta.size
    ++ codes " bytes\n  Words: "
    ++ print_int meta.word_count
    ++ codes "\n  Chars: "
    ++ print_int meta.char_count)

unfoldable pub info_text : Clock → FileMetadata → Bytes
unfolding stats_text
info_text clock meta =
    take 8191 (codes "--- File Info: " ++ meta.filename ++ codes " ---\n")
    ++ codes "  Owner: "
    ++ meta.owner
    ++ codes "\n  Created: "
    ++ clock.seconds meta.created_at
    ++ codes "\n  Modified: "
    ++ clock.seconds meta.last_modified
    ++ codes "\n  Accessed: "
    ++ clock.seconds meta.last_accessed
    ++ stats_text meta
    ++ codes "\n  Access: "
    ++ format_access_list meta.access_list

unfoldable pub user_lines : List Bytes → Bytes
user_lines [] = []
user_lines (user ∷ users) = user ++ 10 ∷ user_lines users

unfoldable pub user_list_text : List Bytes → Bytes
unfolding user_lines
user_list_text users = codes "--- Registered Users ---\n" ++ user_lines users

-- What is sent for a message.
unfoldable pub message_text : Clock → Message → Bytes
unfolding view_text info_text user_list_text create_text delete_text go_to_text
message_text clock (create_file filename) = create_text filename
message_text clock (delete_file filename) = delete_text filename
message_text clock (usage text) = codes "400 ERROR: " ++ text
message_text clock bad_flag = codes "400 ERROR: Invalid permission flag. Use -R or -W."
message_text clock (not_owner text) = codes "401 ERROR: Only the owner can " ++ text
message_text clock (denied perm) = codes "401 ERROR: " ++ perm ∷ codes " access denied."
message_text clock read_denied = codes "401 ERROR: Read access denied."
message_text clock no_file = codes "404 ERROR: File not found."
message_text clock exists = codes "409 ERROR: File already exists."
message_text clock invalid_init = codes "400 ERROR: Invalid INIT_SS"
message_text clock invalid_client = codes "400 ERROR: Invalid INIT_CLIENT"
message_text clock invalid_first = codes "400 ERROR: Invalid INIT message."
message_text clock no_servers = codes "503 ERROR: No storage servers available."
message_text clock offline = codes "503 ERROR: Storage server for this file is offline."
message_text clock created = codes "201 OK: File created successfully!"
message_text clock deleted = codes "200 OK: File deleted successfully."
message_text clock granted = codes "200 OK: Access granted."
message_text clock removed = codes "200 OK: Access removed."
message_text clock (go_to ip port) = go_to_text ip port
message_text clock (file_info meta) = info_text clock meta
message_text clock (file_list show_details files) = view_text clock show_details files
message_text clock unknown_command = codes "400 ERROR: Unknown command."
message_text clock (output text) = text
message_text clock (user_list users) = user_list_text users
