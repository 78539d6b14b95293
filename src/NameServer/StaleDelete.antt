-- ===== src/NameServer/StaleDelete.antt =====
-- DELETE of name_server/client_handler.c, which looks a file up and checks its owner at one time, and
-- removes it at another, with no lock held between.
use distributed_concurrent_f.HashTable.{HashTable}
use distributed_concurrent_f.NameServer.{NameServer}
