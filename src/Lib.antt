-- ===== src/Lib.antt =====
-- The distributed file system of this repository: a name server that knows every file, its owner,
-- its access list and its storage server; storage servers that keep the text files and edit them by
-- sentence and word; clients that ask the name server first, and then talk to the storage server.
--
-- The parts, and the files that model them (paths from the repository's root):
--
-- - Prelude: native numbers and integers, lists indexed by them, byte strings with `strcmp` and
--   `strncpy`.
-- - CString, Decimal and Common: src/common/common.c, that is `split_string`, `trim_newline` and the word
--   count, and the routines of the C library that they and the other parts use; numbers are printed
--   by Decimal and read back by `atoi`.
-- - FileParser: src/storage_server/file_parser.c. The scanning loops keep the suffix of the text
--   that the pointer stands at. Words and Sentences show what the loops compute, Insert and Update
--   follow `apply_single_update`, Reparse is the round trip, Bounds the buffer lengths.
-- - StorageServer: src/storage_server/storage_server.c, the locks (Locks) and the log (Log); in Scan
--   the message that registers it, with src/storage_server/persistence.c.
-- - UndoHandler: src/storage_server/undo_handler.c over a directory of files.
-- - FileOps: src/storage_server/file_ops.c. `handle_ss_write` is the three functions `write_begin`,
--   `read_updates` and `write_commit`, cut where it waits for its client. Sessions is the system of
--   all threads of a storage server as a step relation; Collide is about shifted sentence numbers.
--   Stream is `handle_ss_stream`, Connection/Write a WRITE that nobody disturbs, from the lines that the
--   client types to the text of the file, Reported what the name server is told of it, and Connection
--   the dispatch of a request of a client and of a command of the name server.
-- - Trie, AccessList and HashTable: src/common/data_structures.c.
-- - Persistence: the lines of the state files of src/name_server/persistence.c, written and read.
-- - NameServer: the state of include/name_server.h, with src/name_server/ss_handler.c; in Handlers
--   the commands of src/name_server/client_handler.c, in Texts what they send, in Exec
--   src/name_server/exec_handler.c, in Commands one round of the command loop, in SsHandler the
--   connection of a storage server, in ClientHandler a connection of either kind from its first
--   message on, with the dispatch of src/name_server/name_server.c, in Restart the start and the end of
--   the server with its state files; Persisted is about those files behind a command, Survival about
--   what is there after the next start; Answers is about what is sent for a command and what the client
--   reads of it, Serial about the handlers of all connections one after the other in any order, and
--   StaleDelete about a DELETE that others come between. What the network and
--   the shell answer is a parameter, `Outside`. Catalog is the abstract view of the file table, owners
--   and rights, with the changes that a command may make; Refinement is about the two, for one command,
--   and Serial/Trail for all of them.
-- - Client: src/client/client_net.c, in Commands, Loop and Main src/client/client.c. The client is a
--   function of the messages and the lines that it reads; Output puts it in front of a name server
--   and a storage server, WriteRead behind a WRITE of another client, and
--   Requests is about what its handlers send.
-- - Tests: the operations on concrete inputs.
--
-- State is passed explicitly: an operation takes the record of its component and returns the new
-- one with its result. What goes out on a socket is a value, the reply or an entry of `sends`. A
-- mutex makes the operation that holds it one step. Loops run over the list or text that the source
-- walks, without fuel; two do not: a number `n` is printed in at most `n + 1` rounds, of which each
-- leaves a smaller one, and the command loop of the client has a number of rounds, each of which
-- reads a line, so that one more than there are lines is enough. Integers of the source that the
-- input bounds (lengths, indices, counters) do not wrap; the hash is computed modulo 2 ^ 64, as
-- `unsigned long` is. Strings hold no NUL, names are cut at 255 bytes as `strncpy` does, and paths at
-- 1023 as `snprintf` does. What the operating system decides, whether a file can be opened, unlinked
-- or renamed, is a field of `FileSystem`.
--
-- Not modelled: sockets, threads and logging; a server or a script that never answers or ends; a buffer
-- that is written past its end; how TCP cuts a stream of bytes into messages, but for the answers to READ and STREAM, of which only the bytes count; allocation failures; the shell that
-- EXEC starts and the calendar behind the times of INFO and VIEW, which are parameters; the `main`
-- functions of the two servers; the LRU cache, which is a stub.
pub mod Prelude
pub mod CString
pub mod Decimal
pub mod Common
pub mod FileParser
pub mod Trie
pub mod AccessList
pub mod HashTable
pub mod Persistence
pub mod StorageServer
pub mod UndoHandler
pub mod FileOps
pub mod NameServer
pub mod Client
pub mod Tests
