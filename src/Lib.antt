-- ===== src/Lib.antt =====
-- A parallel file system in C++: clients (pfs.cc, linked into each program) read and write blocks of
-- files that are striped over five file servers (FileServer.cc); a metadata manager
-- (MetadataManager.cc) keeps the table of files and grants the tokens that allow a client to read or
-- to write a range of blocks. A client keeps its tokens in the table of open files (FileDesc.cc) and
-- its blocks in a cache (ClientCache.cc). The programs send each other lines of words over TCP.
--
-- Which file models which part:
--   Prelude        shared names, tests, list functions, integers and texts over the native numbers
--   Interval       `Interval` of mt_data_types.hh and data_types.hh: ranges of blocks, `unsigned int`s
--                  with their wrap-around
--   TokenMap       `map<Interval, V, mycomparison>`: `find`, `insert` and `erase` on the entries in the
--                  order of their keys
--   FileDesc       FileDesc.cc: the table of open files; FileDesc.Permission is `addPermission`,
--                  `checkPermission` and `removePermission` on the token map of one open file
--   Strings        StringFunctions.hh, with `atoi` and `ostringstream <<`
--   Recipe         `fileRecipe`, its text, and how `pfs_open` of pfs.cc reads that text
--   Striping       `corresponding_server` of net_addresses.hh
--   Metadata       MetadataManager.cc: Files has `execFunc_create`, `execFunc_open`,
--                  `execFunc_delete` and `execFunc_fstat`, Tokens `execFunc_request_token`, Dispatch
--                  `HandleTCPClient`
--   Client         pfs.cc: Tokens has `required_token`, Calls the calls of the library that talk to
--                  the metadata manager, `pfs_close` and `find_buf_offset`, Acquire the loop for tokens,
--                  Blocks one block of a read or a write, with `readFromFileServer` and
--                  `writeToFileServer` of ClientCache.cc, Io `pfs_read` and `pfs_write`, Flush the
--                  `flush` of ClientCache.cc, and Revoker its `HandleRevoker` with the flush behind the
--                  answer, the port of `revokingFunc`, and a revocation in the middle of a write
--   Cache          ClientCache.cc: insertion, lookup, the harvester, and how `HandleRevoker` reads a
--                  message
--   Network        the metadata manager and the clients together: the loop of `execFunc_request_token`
--                  over the writers, answered by the clients' `HandleRevoker`
--   FileServer     FileServer.cc: its handlers, `HandleTCPClient` and the port of `main`;
--                  FileServer.Disk is what it takes from the operating system
--   Tests          the theorems at concrete inputs
--
-- A request to the metadata manager is a function from its state (the table and whether `gft_lock` is
-- held) to an outcome: a response with the next state, or waiting for a lock, waiting for an answer, an
-- exception, or an access outside a vector. The source holds `gft_lock` for the whole of a request, so
-- requests of different threads run one after the other; a token request takes the lock of the file's
-- entry too and gives it back with its response. What other programs answer is an argument:
-- a function for the file servers, and a list of replies for the clients that are asked to give up
-- tokens; Network computes this list from the clients' tables of open files. A client's call is a function from the table of open files, the mutex and the cache to a result
-- or the way in which it fails. A file server's handler is a function from the files to what is sent and
-- the files after it; the operating system's calls are a record of functions, and the laws on them that
-- the theorems take are those of POSIX; FileServer.Disk.Memory is an instance.
--
-- Bounds and fuel. Block numbers, sizes and times keep the width of their C++ types, written out as
-- remainders. `addPermission` and `removePermission` take fuel for their `while` loops, and more fuel
-- than entries is enough where the theorems say so; the loop over the readers gets twice the length of
-- the vector and one round more, since each round passes an entry or erases one that the range
-- touches, and the range does not touch what is appended then. The loop for tokens counts its requests;
-- one more than there are blocks is enough where the metadata manager grants them. The loops over
-- replies recurse on the list of replies; where clients answer, the rounds are one more than the entries
-- that the range touches, and a client's fuel is more than it has tokens.
--
-- Not modelled: sockets and threads (PracticalSocket.cc is a library), the threads' endless loops
-- around what is modelled, printing, and the test programs. Calls run one after the other; only the
-- flush is given as steps between which writes come, and a revocation comes between the token loop
-- and the blocks of a write. Offsets of calls are less than 2^41 and block numbers for a file server
-- less than 2^21, so that no `int` of these overflows; `end + 1` of `addPermission` wraps around as an
-- `unsigned int` would. cache_impl.hh is another project's file. The parts of
-- a text that a message larger than a buffer loses are not modelled, nor is the movement of a
-- vector's or a hash table's storage.
mod Prelude
pub mod Interval
pub mod Strings
pub mod Metadata
pub mod Network
pub mod Recipe
pub mod Striping
pub mod TokenMap
pub mod FileDesc
pub mod FileServer
pub mod Client
pub mod Cache
mod Tests
