-- ===== src/Client/Address.antt =====
-- The address of a storage server, from the name server to the client.
use distributed_concurrent_f.Prelude.{
  ◌≤◌, true, ◌∷◌, [], ◌++◌, ◌≡◌, refl, Bytes, codes, ℤ, length, take_all, drop, if◌then◌else◌,
}
use distributed_concurrent_f.CString.{split_string}
use distributed_concurrent_f.CString.Fields.{IsField, split_string-fields}
use distributed_concurrent_f.Decimal.{print_int, print_int-IsField, atoi-print_int}
use distributed_concurrent_f.NameServer.Messages.{go_to_text}
use distributed_concurrent_f.StorageServer.Scan.{starts_with}
use distributed_concurrent_f.Client.{World, linked, unreachable, client_link}

address_words :
    (ip : Bytes) (port : ℤ)
    → IsField 58 ip
    → split_string (ip ++ 58 ∷ print_int port) 58 ≡ ip ∷ print_int port ∷ []
address_words ip port h =
    split_string-fields 58 ip (print_int port ∷ []) h (print_int-IsField 58 port refl, tt)

go_to_text_eq :
    (ip : Bytes) (port : ℤ)
    → length (codes "202 OK " ++ ip ++ 58 ∷ print_int port) ≤ 4095
    → go_to_text ip port ≡ codes "202 OK " ++ ip ++ 58 ∷ print_int port
unfolding go_to_text
go_to_text_eq ip port fits = take_all 4095 (codes "202 OK " ++ ip ++ 58 ∷ print_int port) fits

-- The client recognises the message, and connects to the address and the port that the name server
-- printed, if the address holds no colon and the message fits its buffer.
pub link-go_to :
    (world : World) (ip : Bytes) (port : ℤ)
    → IsField 58 ip
    → length (codes "202 OK " ++ ip ++ 58 ∷ print_int port) ≤ 4095
    → (starts_with (codes "202 OK") (go_to_text ip port) ≡ true)
      × (client_link world (drop 7 (go_to_text ip port))
          ≡ (if world.reachable ip port then linked ip port else unreachable))
unfolding client_link starts_with
link-go_to world ip port h fits =
    rw (go_to_text_eq ip port fits) (refl, rw (address_words ip port h, atoi-print_int port) refl)
