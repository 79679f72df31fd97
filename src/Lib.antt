-- ===== src/Lib.antt =====
-- The verification library of prequel, a library for on-disk data structures.
--
-- The program: an engine reads and writes blocks of one size. The transaction engine never changes
-- the database file within a transaction: it writes new versions of blocks to a journal, a redo log
-- whose committed transactions are found again after a crash, and copies them into the database on
-- a checkpoint. Containers keep their data in blocks that an allocator hands out.
--
-- Prelude: lists measured by the native numbers, Boolean tests, results. `Result` is a value or the
-- exception that is thrown; `assertion` is a failed PREQUEL_ASSERT, as in a debug build.
--
-- MemoryFile (src/vfs.cpp, class memory_file): a file as its bytes.
--
-- Serialization (include/prequel/serialization.hpp): big-endian integers.
--
-- Journal (src/engine/journal.hpp, src/engine/journal.ipp): the members of class journal as a
-- record, `Tail` being the part called "Journal file management" there; one function per member
-- function, and one for each loop round. Journal/Tail has the buffer, Journal/Restore the
-- constructor. The journal is modelled over memory files. Journal/History says what a log means: a
-- list of transactions, each a list of blocks with a database size; Journal/State relates an open
-- journal to such a history, and the theorems follow the operations along it.
--
-- Fuel: `append_loop` has one round for each byte, `scan` one for each byte left in the file and
-- `restore_loop` one for each byte behind the header; each round takes a byte at least, and the
-- theorems show that the result is found. Offsets are lengths of bytes in memory, below 2 ^ 64.
--
-- Allocator (include/prequel/container/allocator.hpp): the interface of allocators, as a record of
-- its two operations on single blocks and of what its documentation promises of them. Containers
-- take one as a section parameter.
--
-- Stack (src/container/stack.cpp): `Stack` is raw_stack_impl with its anchor, its buffer, the nodes
-- that are in the engine's blocks and the state of the allocator. Stack/Chain has the linked nodes
-- and the values they hold, Stack/Valid the invariant; Stack/Push, Stack/Pop and Stack/Whole follow
-- the operations. `free_nodes` and `count_nodes` have a round for each node, by the anchor's count.
-- An exception is an error value, without the state at the throw.
--
-- Math (include/prequel/math.hpp): arithmetic with the wrap-around of 64 bits; `smear` is a round of
-- the loop of round_towards_pow2.
--
-- Extent (src/container/extent.cpp, include/prequel/container/allocator.hpp): ranges of blocks, with
-- the range operations of allocators over the virtual functions of an implementation, which is a
-- section parameter. Offsets within a block are counted in values.
--
-- Array (src/container/array.cpp): `Array` is raw_array_impl with its extent. The loop of `resize`
-- is `fill`, with a round for each value to write: each round writes one at least.
--
-- Engine (src/engine/engine_base.hpp, src/engine/engine_base.ipp): `Engine` is engine_base, over the
-- virtual functions do_read and do_write, which are the record `Io`; `Device` adds what they promise.
-- Engine/Blocks has the blocks and the sets that link them, Engine/Valid the invariant `Holds`, which
-- relates the blocks on the device, those in memory and those that users see. `make_room`, the loop of
-- pin, has a round for each cached block. The bytes of a fresh buffer are a parameter, as `malloc`
-- leaves them. An exception drops the state of the engine.
--
-- TransactionEngine (src/engine/transaction_engine.hpp, src/engine/transaction_engine.ipp): the engine
-- that applications use. `Store` is what do_read and do_write work on, the journal and the database
-- file among it; TransactionEngine/Device makes it a device of Engine. TransactionEngine/State has the
-- states between and within transactions, TransactionEngine/Session the abstract database: its
-- blocks, its size and the size that a rollback goes back to and, within a transaction, what the users
-- see and have pinned. `refusal` is the exception of a call there, and `Allowed` what callers see to.
-- TransactionEngine/Answers follows each call in each state, and TransactionEngine/Refinement calls in
-- any order.
--
-- FileEngine (src/engine/file_engine.hpp, src/engine/file_engine.ipp): the block engine on a file, as
-- another device of Engine.
--
-- FreeList (src/detail/free_list.cpp): the free blocks of an allocator, linked by nodes in the blocks
-- themselves; FreeList/Chain says which indices the nodes hold.
--
-- Bounds: the counters of a stack's anchor and the addresses in an extent are 64-bit numbers in the
-- source; they are natural numbers here, as no file has so many blocks.
--
-- Not modelled: the memory and mapped-memory engines, handles that are shared, the list, the
-- hash table, the B-tree, the heap, the default allocator, raw addresses and bit sets; files of
-- the operating system and memory mappings, which are system calls; handles and anchors, which are
-- C++ plumbing around blocks and appear as fields of the containers' states; the printing
-- functions. Allocation failures of the C++ heap do not occur.
pub mod Prelude
pub mod MemoryFile
pub mod Serialization
pub mod Math
pub mod Journal
pub mod Allocator
pub mod Stack
pub mod Extent
pub mod Array
pub mod Engine
pub mod TransactionEngine
pub mod FileEngine
pub mod FreeList
