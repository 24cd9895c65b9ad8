-- ===== src/Lib.antt =====
-- VCache: a Redis-like in-memory database with expiring keys and a memory limit.
--
-- A `Database` (include/Database.h, src/Database.cpp) splits its keys over independently locked shards by
-- the high bits of a hash. A shard holds a `HashTable` (include/HashTable.h, src/HashTable.cpp): chained
-- buckets that own the nodes, and a doubly linked list of raw pointers through the same nodes in order of
-- use, from whose tail `evictOldest` takes its victims. Entries (include/Entry.h) may have a deadline.
-- A request line is split and checked by `CommandParser`, run by `CommandExecutor` (include/ and src/ of
-- those names) and answered by tagged lines (include/Protocol.h).
--
-- A `SnapshotStore` (include/Persistence.h, src/Persistence.cpp) writes the live entries to a file in a
-- format of its own, and reads them back; a `SnapshotScheduler` saves on a timer, an `ExpirationSweeper`
-- reclaims expired keys on another. The `Server` (include/Server.h, src/Server.cpp) restores the database,
-- accepts connections, and hands each of them to a worker of a `ThreadPool`, which cuts the stream into request
-- lines and sends the replies. `VCacheClient` is the other end of a connection. server/main.cpp and
-- client/main.cpp are the two programs.
--
-- Where things are:
-- - Entry: the struct `Entry`.
-- - HashTable/Hash: `hashKey`, `roundUpToPowerOfTwo`, `bucketIndexFor`.
-- - HashTable/Recency: `lruPushFront`, `lruUnlink`, `lruClear`. A node is known by its address, and the
--   pointer fields are a function of the address; `promote` is the end of `touch`.
-- - HashTable/Chain, HashTable/Table, HashTable/Sweep: the class `HashTable`. A chain of owning pointers
--   is a list of nodes. `put`, `remove`, `resize`, `find` and the constructor are in Table; `removeIf`,
--   `clear`, `touch`, `keysWhere` and `evictOldest`, which walk the table or follow the list, in Sweep.
-- - Database/Shard: what a method of `Database` does under the lock of one shard; Database/Engine: the
--   class itself, which picks the shard. The overloads of `set` are `set_value` and `set_with_ttl`.
-- - Protocol/Tag, Protocol/Count, Protocol/Encode: the tags, `parse`, `parseCount` and the encoders.
-- - Command/Token: `tokenize`; Command/Parse: the rest of CommandParser.cpp; Command/Escape, Command/Execute:
--   CommandExecutor.cpp. `run` is the switch of `execute`, and the snapshot store is its parameter.
-- - Programs/ByteSize, Numbers, Arguments, ServerMain: server/main.cpp, which is `parseByteSize`, `std::stoi`
--   and `std::stoll` as it calls them, `parseArguments` and `main`. Programs/OneShot, ClientMain:
--   client/main.cpp, which is `joinOneShot`, `parseArguments`, `printReply` and `main`. What happens while the
--   server runs is an argument of its `main`; what `send` and `recv` come to is one of the client's.
-- - Persistence/Little, Clocks, Encode, Decode: `namespace snapshot` and the functions above it in
--   Persistence.cpp. A position in the data is what is left of it. Persistence/Outcome, Disk, Store: the
--   outcomes, `writeAll` and `readWholeFile`, and `SnapshotStore`, whose `save` is a chain of functions, one
--   from each system call on: `save_entries`, `after_write`, `flush`, `replace`, `give_up`.
-- - Server/Lines, Send, Connection: the search for a newline, `sendAll` and `sendLine`, `handleConnection`,
--   over an executor and a socket that are parameters; Server/Peer: these two as they are. Server/Start:
--   `start` and `closeSockets`, one function from each system call on; Server/Accept: the loop of `run`;
--   Server/Registry: `serveConnection`, `shutdownActiveConnections` and `stop`, as steps; Server/Ending: the
--   end of `run`, whose steps are `go_on`, among those of the pool, the connections and the threads.
-- - Client/Connect, Client/Receive, Client/Command: `VCacheClient`.
-- - ThreadPool/Pool: the class `ThreadPool`. `advance` is a step of a worker in `workerLoop`, and `Reach` the
--   states that a pool passes through, in any interleaving.
-- - Background/Sweeper, Background/Scheduler: the loops of the two threads, and what they count;
--   Background/Thread: their `start` and `stop`, which are the same in both.
-- - The other modules below HashTable and Database are proofs: Valid states the invariant of a table,
--   Sound that of a database, Servable that and where each key is; Put, Remove, Modify, Grow, Narrow and Evict
--   follow the methods of the table, Swept, Sweeping and Listed its walks, Store, Writes, Readers, Reads, Expired,
--   Swept, Tamed, Limit and Restored those of the database. Database/Requests has its operations as a data type
--   with their meaning for a map, Refined and Lifetime compare the two, and Restart joins `snapshot` and
--   `restore`; RoundTrip, Replies, Session and Fuel below Command are about requests. RoundTrip, Loaded, Revived, Deadline,
--   Corrupt and Untrusted below Persistence are about the format, Atomic and Completes about the file. Framing,
--   Transcript, StartSafe, ClosedOnce, Threads, Stages, Kept, Lasting, Accounted and
--   Ended below Server, Lifecycle below Background, Arrivals
--   and Keys below Client, and Reached and Drained below ThreadPool follow their components, as do Allowed,
--   FinalSave, Joined, Shown and KeysShown below Programs.
--   Tests applies the theorems to small inputs.
--
-- How code becomes definitions:
-- - A method is a function from the state to the state and the result. A fault, which is a read through a
--   dangling pointer, a loop that does not end within its fuel or a deadline that overflows, is `none`. In
--   `resize` such a loop leaves a table without buckets (`is_endless`), for which `store` gives `none`.
-- - Numbers of type `std::size_t` wrap at 2⁶⁴ (`add64`, `sub64`, `mul64`). A time point is a number of
--   nanoseconds; the clock is read by the caller and passed in. The source's clocks count in signed 64-bit
--   integers: a deadline of 2⁶³ or more is a fault of `set_with_ttl`, and `undefined` in `decode`, for which `load`
--   gives `none`. `IsTimely` asks it of requests and `IsDatable` of snapshots that deadlines do not overflow. The
--   milliseconds of `--save-interval` are taken modulo 2⁶⁴, and `start` tests their sign.
-- - The size of `HashTable::Node` and of a pointer depend on the platform: they are the argument `Sizes`.
-- - The load test compares doubles; here it is 4 * size > 3 * buckets, which is the same test below 2⁵¹.
-- - The allocator gives every new node an address that was never used; `next_addr` is its counter.
-- - `IsLoadable` bounds the key and the value of an entry by what `decode` accepts.
-- - `resize` doubles its target on fuel 64, `roundUpToPowerOfTwo` and `log2OfPowerOfTwo` of the database
--   loop on fuel 64, and `evictToFit` on one round more than there are entries.
-- - What a system call returns is a list of results, one for each call in its order (Base/Calls); a run that
--   has used them up is inside the next call, so a list that is cut short is a crash or a wait at that point.
-- - A file is its bytes, and whether they are flushed to the disk; `rename` is one step. The system clock has
--   a tick of `tick` nanoseconds, and both clocks are read anew for each entry.
-- - The inner loop of `handleConnection` runs on the number of pending bytes, of which each turn takes one.
-- - A task of a pool is a value; running it has no effect on the pool but whether it throws. In `Runs` the
--   task is a connection: only the worker that has it moves it, and ends its task past the `close`.
-- - `tokenize` and its loop inside quotes run on one round more than there are bytes.
-- - `Fits` bounds a table by the memory of a 64-bit machine: fewer than 2⁵⁹ entries, at most 2⁶⁰ buckets. Over
--   a sequence of requests or entries it follows from two bounds that every operation keeps: at most 2⁵⁶
--   entries, one for each request, and at most 2⁵⁸ buckets (`Narrow`).
--
-- Not modelled: the mutexes, since a method is one step, which is what holding the lock of a shard, of the
-- store or of the pool gives; `loadFactor`, a double for reports; calls of `start` and `stop` of a
-- background thread by two threads at once, which the server never makes; of the server program, the signal
-- handler and what it prints on the standard output. bench/ and tests/ are not part of the program.
pub mod Base
pub mod Entry
pub mod HashTable
pub mod Database
pub mod Protocol
pub mod Persistence
pub mod ThreadPool
pub mod Server
pub mod Client
pub mod Background
pub mod Command
pub mod Programs
pub mod Tests
