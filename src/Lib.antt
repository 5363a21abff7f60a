-- ===== src/Lib.antt =====
-- customRedis: a key-value server that speaks a binary protocol (src/server.cpp), its client
-- (src/client.cpp), the handlers of the commands (src/redis_functions.cpp) and the data structures
-- they stand on (src/data_structures).
-- The parts and the files that model them:
--   Base: helpers that all parts share (numbers, lists, bits, steps that may fault).
--   Str, of src/data_structures/dstr.h and dstr.cpp: dynamic strings. A `dstr` is a record of its
--     characters, the `free` field and the bytes that the allocation holds behind the header;
--     `malloc` and `realloc` are a parameter that says which requests are served. An append or a
--     resize that writes behind the allocation is a fault; what a string claims to have is `IsSafe`
--     or not. Str/Contents is about the characters, Str/Room about the allocation.
--   HashMap, of src/data_structures/hashmap.h and hashmap.cpp: the chained hash table with
--     progressive rehashing. `HTab` and `HMap` are records of the source's fields, a chain is a
--     list of nodes, and each function of the source is the definition of the same name.
--     HashMap/Tab is about one table, HashMap/Rehash, Insert, Lookup and Delete about the
--     operations on both, HashMap/Refine about the map as a function from keys to nodes,
--     HashMap/Keys about `hm_size` and `hm_keys`.
--   Avl, of src/data_structures/avl_tree.h and avl_tree.cpp: the balanced tree that keeps heights
--     and sizes. A subtree is a `Tree`, a pointer to a node that the source follows upwards a
--     `Place`, which has the crumbs of the way to the root; each function of the source is the
--     definition of the same name, and the branches of `avl_fix` and `avl_del` are definitions of
--     their own. Avl/Shape has the balance, Avl/Turns, LeftTall, RightTall, Fix and Climb are about
--     `avl_fix`, Avl/Paths, Replace, Removal and Del about `avl_del`.
--   ZSet, of src/data_structures/zset.h and zset.cpp: the sorted set, a tree in the order of score
--     and key and a hash map from key to the same nodes. ZSet/Keys and Order are about `zless`,
--     ZSet/Insert, Update, Delete and Readback about the operations on both, with the invariant in
--     ZSet/Valid and Distinct, ZSet/Rank, Offset, Walk and LowerBound about `zset_offset` and
--     `zset_lower_bound`.
--   Wire, of src/buffer_funcs.cpp: bytes, little-endian numbers and the reads of a buffer.
--   Reply, of src/server.h, src/out_helpers.h, src/out_helpers.cpp and the two ends of a reply in
--     src/server.cpp: the connection record `Conn` and one definition per `out_` function.
--     Reply/Tags has the tags, Reply/Items a reply as a list of items.
--   Client, of src/client.cpp: `handle_write` makes the bytes of a command, `handle_read` and
--     `print_res` read a reply; the socket is a stream of bytes, and what stands in memory behind a
--     copied string is a parameter, since `%s` prints up to a zero byte that the copy does not
--     have. Client/Shows is about what is printed.
--   Server, of src/server.cpp: `parse_cmd`, `try_one_req` and the loop over it. `out_buffer` is a
--     parameter; the theorems have the premise that it appends a reply to each of the commands that
--     come in, and are applied to the one of Commands/Dispatch. Server/Parse is about one command,
--     Server/Pipeline about requests that stand one behind the other, Server/Exchange about client
--     and server together, Server/Stored about SET and GET from the bytes of the requests to those
--     of the replies, with the program's own `out_buffer`.
--   Commands, of src/redis_functions.h, redis_functions.cpp and the typed nodes of
--     src/data_structures/hashmap.cpp: a node's value is a `Value`, one constructor per type, the
--     database is a hash map of them, and a handler goes from a connection, the tokens and the
--     database to a status, a connection and a database. Commands/Strings, Expiry, SortedSets,
--     Lists, Hashes, Sets and Bitmaps define the handlers; A write through the pointer that a
--     lookup returned is the model's `hm_store`, which finds the node again; Commands/Chains, Store
--     and Lookups are about it, Keyspace and Deletes about GET, SET and DEL, Times about EXPIRE,
--     TTL and PERSIST, Scores and Ranges about sorted sets, Ends about lists, Fields about hashes,
--     Bits, BitReads and BitCounts about bitmaps. Commands/Dispatch is `out_buffer` of
--     src/server.cpp, with the names of commands in Commands/Names, and Commands/Served is about
--     commands that go through it.
--   Heap, of src/data_structures/heap.h and heap.cpp: the heap of expiry times with the references
--     back into the entries. Heap/Refs, Heap/Up and Heap/Moves are about the entries and their
--     references, Heap/Order about the order.
--   Timers, of src/server.cpp: `set_ttl`, `rem_ttl` and the loop of `process_timers` that deletes
--     entries. Timers/Places is about positions in lists, Timers/Insert and Timers/Remove about the
--     heap, Timers/Live about entries that are allocated, Timers/Expire about the loop. An entry
--     that is not allocated cannot be read.
--   DList, of src/data_structures/dlist.h and dlist.cpp: doubly linked lists as the two link fields
--     of all nodes, 0 for NULL. DList/Ring is about the ring of a list and insertion, DList/Deatach
--     about taking a node out.
--   Hll, of src/data_structures/hyperloglog.cpp: the header of a HyperLogLog with its cached count,
--     Hll/Cache, and the flags of the sparse encoding, Hll/Flags.
--   ThreadPool, of src/threadpool.h and threadpool.cpp: the threads and the queue of jobs as a step
--     relation, a step being what a thread does while it holds the mutex, or the begin or the end
--     of a job, which a thread calls behind the unlock. ThreadPool/Runs is about the states that
--     the pool reaches.
--   Hash, of src/utils/common.h: `murmurHash64A` and `str_hash` on words that wrap at 2 ^ 64.
--     Hash/Bounds is about their range.
-- A read or write out of bounds or through NULL, and a failed assertion, is a fault: the result
-- `none`. A theorem that says that an operation returns says that it does not fault.
-- Bounds and fuel: the loop of `hm_rehash_help` has fuel 128 + mask + 2, since each round moves a
-- node (at most 128) or goes one bucket on (and the buckets before the position are empty); the
-- theorems on it prove that this is enough. The loop over requests has fuel for one round per byte
-- that has come in, since a request is not empty, and `print_res` one call per byte. The loops of
-- the heap have fuel for the way to the root or to the end of the vector. Positions in the heap are
-- below 2 ^ 31, so the `int32_t` that a parent's position goes through does not cut them; the
-- theorems state it. Arithmetic on `size_t` in strings wraps at 2 ^ 64. Counts of nodes and buckets
-- are bounded by memory and do not wrap.
-- In the sorted sets a score is the 64 bits of a `double`, with the order of the numbers that the
-- bits stand for and `is_nan` for those that stand for none; the address that `malloc` gives to a
-- new node is an argument. A tree has fewer than 2 ^ 31 nodes in the theorems, so heights and sizes
-- do not wrap in `uint32_t` and offsets not in `int32_t`. `zset_offset` has the longest way through
-- the tree as fuel, and the loop of ZRANGEQUERY the number of nodes and one. In the handlers
-- `strtol` and `strtod` are parameters; a `long` is held with 2 ^ 63 added and an `int32_t` with 2
-- ^ 31 added. There a string is its bytes, within the limit on strings and with requests of memory
-- served. What `ht_unlink` does to a value is any function in HashMap; in Commands it is
-- `unlink_val`, which clears a value below the threshold and leaves a larger one to the thread
-- pool. The pool's job on it is not part of the step that hands it over, and a free of such a node
-- is a fault. `hm_delete_free` is `hm_delete` with that free.
-- Not modelled: sockets, polling, the clock and the terminal (main, accept and read loops), which
-- are input and output; the tests; empty files; the registers and the sparse updates of the
-- HyperLogLog and its handlers, which are parameters of the dispatch; and the timeouts of
-- connections. `out_buffer` is a parameter in Server, whose theorems hold of every one that answers
-- the requests that come in; Server/Stored is about the program's own. The count of bits in
-- BITCOUNT has no theorem for positions below 0.
pub mod Base
pub mod Str
pub mod HashMap
pub mod Avl
pub mod ZSet
pub mod Wire
pub mod Reply
pub mod Client
pub mod Server
pub mod Commands
pub mod Heap
pub mod Timers
pub mod DList
pub mod Hll
pub mod ThreadPool
pub mod Hash
