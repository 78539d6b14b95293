-- ===== src/Tests/Restart.antt =====
-- Restarts of the name server of `Tests.Names`.
use distributed_concurrent_f.Prelude.{
  [], ◌∷◌, ◌≡◌, ◌≢◌, refl, All, arith, codes, pos, negsuc, some, none, str_eq, List,
}
use distributed_concurrent_f.AccessList.Laws.{is_unique, has_user}
use distributed_concurrent_f.HashTable.{
  ht_create, ht_insert, ht_get, hash_function, hash_loop, hash_round, sign_extend,
}
use distributed_concurrent_f.HashTable.Chain.{FileMetadata, chain_find}
use distributed_concurrent_f.Decimal.{print_int, print_nat, digits}
use distributed_concurrent_f.AccessList.{AccessNode}
use distributed_concurrent_f.HashTable.Laws.{IsTable, ht_insert-IsTable}
use distributed_concurrent_f.Persistence.Entry.{IsName}
use distributed_concurrent_f.Persistence.{file_line, access_text}
use distributed_concurrent_f.Persistence.Line.{IsSaved}
use distributed_concurrent_f.NameServer.{NameServer, all_files}
use distributed_concurrent_f.NameServer.Restart.{restart}
use distributed_concurrent_f.NameServer.Saved.{
  BucketsSaved, insert-BucketsSaved, BucketsSaved-all_files,
}
use distributed_concurrent_f.NameServer.Survival.{SameFile, restart-SameFile, restart-eq-none}
use distributed_concurrent_f.Tests.Tables.{report, table, bob_reads}
use distributed_concurrent_f.Tests.Names.{nm, table-IsTable}

cons-ne-nil : {A : Type 0} (x : A) (l : List A) → (x ∷ l) ≢ []
cons-ne-nil x l = λ (e : (x ∷ l) ≡ []). cc

abbrev ann_writes : AccessNode
ann_writes = record { username = codes "ann"; permission = b'W' }

abbrev notes : FileMetadata
notes = record report {
  filename = codes "notes";
  access_list = ann_writes ∷ bob_reads ∷ [];
  size = pos 12;
  last_modified = negsuc 4;
}

ann-IsName : IsName (codes "ann")
ann-IsName = (cons-ne-nil _ _, (refl, (refl, (refl, tt))), omega arith)

bob-IsName : IsName (codes "bob")
bob-IsName = (cons-ne-nil _ _, (refl, (refl, (refl, tt))), omega arith)

report-IsSaved : IsSaved report
unfolding is_unique has_user str_eq file_line print_int print_nat digits access_text
report-IsSaved = record {
  filename = (cons-ne-nil _ _, (refl, (refl, (refl, (refl, (refl, (refl, tt)))))), omega arith);
  owner = ann-IsName;
  address = (
    cons-ne-nil _ _,
    (refl, (refl, (refl, (refl, (refl, (refl, (refl, (refl, tt)))))))),
    omega arith,
  );
  entries = tt;
  unique = refl;
  fits = omega arith;
}

notes-IsSaved : IsSaved notes
unfolding is_unique has_user str_eq file_line print_int print_nat digits access_text
notes-IsSaved = record {
  filename = (cons-ne-nil _ _, (refl, (refl, (refl, (refl, (refl, tt))))), omega arith);
  owner = ann-IsName;
  address = report-IsSaved.address;
  entries = ((ann-IsName, refl), ((bob-IsName, refl), tt));
  unique = refl;
  fits = omega arith;
}

-- The server with both files.
abbrev both : NameServer
both = record nm { file_table = (ht_insert table notes).1 }

both-IsTable : IsTable both.file_table
both-IsTable = ht_insert-IsTable table notes table-IsTable

both-IsSaved : All IsSaved (all_files both.file_table)
unfolding ht_create
both-IsSaved = BucketsSaved-all_files both.file_table (
    insert-BucketsSaved table notes (insert-BucketsSaved ht_create report empty report-IsSaved)
      notes-IsSaved)
  where
    empty : BucketsSaved ht_create
    empty j = tt

notes_there : ht_get both.file_table (codes "notes") ≡ some notes
unfolding ht_get ht_insert ht_create chain_find hash_function hash_loop hash_round sign_extend
    str_eq
notes_there = refl

both_report : ht_get both.file_table (codes "report") ≡ some report
unfolding ht_get ht_insert ht_create chain_find hash_function hash_loop hash_round sign_extend
    str_eq
both_report = refl

restart-SameFile_example :
    (k : FileMetadata) × (ht_get (restart both (pos 7)).file_table (codes "notes") ≡ some k)
    × SameFile notes k
restart-SameFile_example =
    restart-SameFile both (pos 7) refl both-IsSaved (codes "notes") notes both-IsTable notes_there
      (cons-ne-nil _ _)

restart-eq-none_example : ht_get (restart both (pos 7)).file_table (codes "report") ≡ none
restart-eq-none_example =
    restart-eq-none both (pos 7) refl both-IsSaved (codes "report") report both-IsTable both_report
      refl
