-- ===== src/NameServer/Refinement/Rights.antt =====
-- Tables of name_server/client_handler.c that give everybody the same rights stand for the same catalog.
use mathlib.Core.Option
use mathlib.Core.Path.{subst}
use distributed_concurrent_f.Prelude.{ℕ, Option, none, some, Bytes, ◌≡◌, ◌∙◌, refl, ap, sym, arith}
use distributed_concurrent_f.AccessList.Laws.{Unique}
use distributed_concurrent_f.HashTable.{HashTable, ht_get}
use distributed_concurrent_f.HashTable.Chain.{FileMetadata}
use distributed_concurrent_f.HashTable.Laws.{IsTable}
use distributed_concurrent_f.NameServer.{NameServer, check_access}
use distributed_concurrent_f.NameServer.Catalog.{Catalog, catalog, may_access}
use distributed_concurrent_f.NameServer.Ownership.{rights, rights_of}
use distributed_concurrent_f.NameServer.Refinement.Commands.{Tidy}

-- The same owners, and the same rights of every user.
abbrev pub Same : Catalog → Catalog → Type 0
Same c d =
    ((q : Bytes) → d.owner q ≡ c.owner q)
    × ((q u : Bytes) (wanted : ℕ) → d.may q u wanted ≡ c.may q u wanted)

owner_of :
    (t q : Option FileMetadata)
    → Option.map rights t ≡ Option.map rights q
    → Option.map (λ (m : FileMetadata). m.owner) t ≡ Option.map (λ (m : FileMetadata). m.owner) q
owner_of none none h = refl
owner_of none (some n) h = absurd (ground (arith, h))
owner_of (some m) none h = absurd (ground (arith, h))
owner_of (some m) (some n) h = ground (arith, h)

may_of :
    (t q : Option FileMetadata) (u : Bytes) (wanted : ℕ)
    → Option.map rights t ≡ Option.map rights q
    → may_access t u wanted ≡ may_access q u wanted
unfolding check_access
may_of none none u wanted h = refl
may_of none (some n) u wanted h = absurd (ground (arith, h))
may_of (some m) none u wanted h = absurd (ground (arith, h))
may_of (some m) (some n) u wanted h =
    let o : m.owner ≡ n.owner = ground (arith, h) in
    let a : m.access_list ≡ n.access_list = ground (arith, h) in rw (o, a) refl

-- Equal rights make an equal catalog.
pub rights-Same :
    (t x : HashTable) → ((q : Bytes) → rights_of x q ≡ rights_of t q) → Same (catalog t) (catalog x)
rights-Same t x h = (
  λ q. owner_of (ht_get x q) (ht_get t q) (h q),
  λ q u wanted. may_of (ht_get x q) (ht_get t q) u wanted (h q),
)

found_list :
    (o : Option FileMetadata) (m : FileMetadata)
    → Option.map rights o ≡ some (rights m)
    → (n : FileMetadata) × (o ≡ some n) × (n.access_list ≡ m.access_list)
found_list none m h = absurd (ground (arith, h))
found_list (some n) m h = (n, refl, ground (arith, h))

pub rights-Tidy :
    (nm x : NameServer)
    → ((q : Bytes) → rights_of x.file_table q ≡ rights_of nm.file_table q)
    → IsTable x.file_table
    → Tidy nm
    → Tidy x
rights-Tidy nm x h table tidy = record {
  table = table;
  lists = λ q m there.
      let (o, f, b) =
        found_list (ht_get nm.file_table q) m (sym (h q) ∙ ap (Option.map rights) there) in
      subst Unique b (tidy.lists q o f);
}
