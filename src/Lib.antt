-- ===== src/Lib.antt =====
-- HCL, the Hermes Container Library: containers whose elements are spread over a number of servers.
-- A process links the library and is a server or a client of the containers it opens; a call finds
-- the server that owns the key, and runs there, on the server's part of the container: directly if
-- the process shares memory with that server, else through a remote procedure call to a function
-- that the server has bound under a name.
--
-- The parts, and the files that model them:
--
-- - Base: numbers of the machine (Words: `u64`, `u16`, division with none for a zero divisor), lists
--   over the native numbers (Lists), Booleans (Bools), Option and its do blocks (Results).
-- - HashKey: what the containers rely on in the parameters HashFcn and EqualFcn, and in
--   std::less: a record of operations and laws, an instance argument everywhere.
-- - LockfreeQueue: the documented behaviour of boost::lockfree::queue, an interface.
-- - Sorted, Sorted/Lists, Sorted/Range: the interface of boost::interprocess set and map, ordered by
--   a key, with an implementation by sorted lists that shows it can hold; the range search of
--   LocalContainsInServer over it.
-- - Partition: initialize_tables, isLocal and serverLocation of the concurrent unordered map, in
--   include/hcl/concurrent/unordered_map/unordered_map.h: one hash table cut into one range of
--   slots for each server.
-- - MemoryPool: the allocator of nodes, in
--   include/hcl/base/containers/concurrent_unordered_map/memory_allocation.h: three queues of nodes,
--   which chunks from malloc feed.
-- - BlockMap: the chained hash table of one server, in
--   include/hcl/base/containers/concurrent_unordered_map/block_map.h. A bucket is a list of nodes in
--   the order of their hashes; a node carries the number of its allocation, so that what is freed
--   and handed out again can be told.
-- - ConcurrentMap: the local methods, what the servers bind and the client methods of
--   include/hcl/concurrent/unordered_map/unordered_map.h and .cpp, over Partition and BlockMap.
-- - Container: the class container (src/hcl/common/container.cpp), the macros of
--   include/hcl/common/macros.h that make a call and bind one, the routing of a call by hash,
--   and the loop that gathers from all servers, as the other containers share them.
-- - Set, Map, UnorderedMap and Multimap: include/hcl/set/set.cpp, include/hcl/map/map.cpp,
--   include/hcl/unordered_map/unordered_map.cpp and include/hcl/multimap/multimap.cpp.
-- - Queue, PriorityQueue, Vector, GlobalSequence, ConcurrentQueue: include/hcl/queue/queue.cpp,
--   include/hcl/priority_queue/priority_queue.cpp, include/hcl/vector/vector.cpp,
--   include/hcl/sequencer/global_sequence.h and include/hcl/concurrent/queue/, whose callers name
--   the server themselves; Container/Addressed has what they share.
-- - ConcurrentSkiplist: include/hcl/concurrent/skiplist/, over an interface of the skip list;
--   Container/Placed has what it shares with Multimap.
-- - CharStruct, Uri: include/hcl/common/data_structures.h and src/hcl/common/data_structures.cpp, the
--   string in a fixed array that the containers use for names and keys, and the addresses of a
--   server that are made of the text of its address.
-- - Strings: what the sources use of std::string, getline, std::to_string and atoi, on lists of bytes.
-- - ConfigurationManager: include/hcl/common/configuration_manager.h and
--   src/hcl/common/configuration_manager.cpp, the settings of a process and the list of servers that
--   a file holds.
-- - RpcLib, HclInternal: include/hcl/communication/, src/hcl/communication/rpc_lib.cpp,
--   include/hcl/hcl_internal.h and src/hcl/hcl_internal.cpp: the start of a process, its RPC objects
--   by port, the one engine that they share, and the endpoint that a call is sent to.
-- - Container/Files, Container/Names: the files of shared memory that the constructor of a container
--   makes or opens, and the names under which methods are bound and called; Dispatch: all the
--   containers on one engine.
-- - GlobalClock: include/hcl/clock/global_clock.h and src/hcl/clock/global_clock.cpp, the time since a
--   server has started, and the file of shared memory that a clock is in.
-- - Tests: concrete tables and servers, and the theorems applied to them.
--
-- How state and calls are modelled. A container is the list of its servers' states; a local method
-- is a function from a state to its answer and the next state; a client method takes the
-- client's own fields, the network and the list of states. The network is a parameter: what is
-- assumed of it is that a remote call runs the function bound under its name, on the server
-- named, and returns its answer. none stands for a run that has no answer: an assertion fails, a
-- division by zero, an index outside a vector. Locks: an operation that holds its mutex (of a
-- bucket, of the segment) from end to end is one step, and a history is a sequence of operations. LocalPut,
-- LocalGet and LocalErase of the unordered map take their mutex only on a server that shares its memory
-- with no client; without it, that one such call is one step is an assumption. LocalWaitForElement takes
-- none, and other calls come between its looks.
--
-- Bounds and fuel. Sums and products of uint64_t and uint16_t wrap. The loop of memory_pool_pop
-- runs on fuel: two rounds, since a round that finds no node allocates a chunk, and a pop from a
-- chunk that is not empty succeeds. The loop that drains a queue runs on the length of the queue
-- and one. The doubling loop of the skip list's power_of_two gets 32 rounds: a number that doubles
-- from 1 passes every int before. std::to_string has as many rounds as its number and one. All other
-- loops are recursions on the list that they walk.
--
-- Texts. A text is a list of bytes; an array of 256 bytes holds the text in front of its first zero
-- byte, and none is a write past its end, an exception of std::string or a number outside the range of
-- int. Files, the environment, thallium's engines and the files of shared memory are parameters or small
-- stores that do what their documentation says.
--
-- Assumed: malloc never fails, and the chunks it returns are disjoint; hashing and comparison keep
-- the laws of HashKey; the Boost containers keep the laws of their interfaces.
--
-- Not modelled: size_occupied of the unordered map, which each process counts in its own object and no
-- method reads; interleavings inside one operation; what Boost constructs inside a file of shared
-- memory; the RPC engines themselves (thallium); logging and profiling; the operators that print;
-- the skip list itself with its accessors, which is adapted from the folly library.
pub mod Base
pub mod Partition
pub mod LockfreeQueue
pub mod MemoryPool
pub mod HashKey
pub mod BlockMap
pub mod Sorted
pub mod Container
pub mod ConcurrentMap
pub mod Set
pub mod Map
pub mod UnorderedMap
pub mod Multimap
pub mod Queue
pub mod PriorityQueue
pub mod Vector
pub mod GlobalSequence
pub mod ConcurrentQueue
pub mod ConcurrentSkiplist
pub mod Dispatch
pub mod GlobalClock
pub mod Strings
pub mod CharStruct
pub mod Uri
pub mod ConfigurationManager
pub mod RpcLib
pub mod HclInternal
pub mod Tests
