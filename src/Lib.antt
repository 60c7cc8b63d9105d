-- ===== src/Lib.antt =====
-- propd: a server of named properties. A client asks a server for the value of a key, sets it or
-- deletes it. The server looks into its cache, finds by the key's prefix the storage that is
-- responsible, locks the key, and calls the storage, which may be a file, a register, or another
-- server.
--
-- The parts, the code that each file models, and how they meet:
--   Prelude      shared names: tests and texts over the native numbers, lists, integers, and `Reply`,
--                the result of a call: ok, an errno, or a fault where the code would crash.
--   Value        lib/value.h: a type, a length and bytes; the constructors, and what a number's bytes
--                hold. Value.Printing is lib/value.c: `value_parse` and `value_fmt`, over the numerals
--                of the C library in Value.Numerals.
--   Storage      lib/storage.h, lib/storage.c: a name and three operations that may be missing.
--   Infra        Tree is the interface to the trees of lib/infra/tree.h, with the laws that the callers
--                use, and Tree.Entries a list that meets them. NamedMutex is lib/infra/named_mutex.c,
--                its threads as steps of a relation, in Ending the end of a namespace. TaskQueue is
--                lib/infra/thread_pool.c: the ring of tasks, one round of a worker, the choice of the
--                numbers, in Order and Service the
--                calls of submitters and workers in any interleaving, and in Lifecycle how a pool is
--                made and destroyed. Resources is what a process takes from the system. Timestamp is
--                lib/infra/timestamp.h, with the time limit of the cache's cleaner.
--   Misc         lib/misc.c: `prefix_match`, the hexadecimal texts, the arrays of C strings, and random
--                names.
--   Cache        lib/cache.c: lookups, writes, deletions and a round of the cleaner. It stands on the
--                tree interface; the clock's reading is an argument.
--   Route        lib/route.c: the table from prefixes to storages, its reference counts, and in
--                Route.Lifetime the references that are out, over any sequence of calls.
--   Io           lib/io.c: `io_get`, `io_set`, `io_del` and `io_update`, which compose Cache, Route,
--                NamedMutex and Storage as the code does, with `cleanup` on every path.
--   IoServer     lib/io_server.c: `worker` on a connection, round by round, and the check before a
--                call; in Sending a client that goes away, after which every `send` fails; in Loop the
--                connections that `server` accepts, and `start_io_server`.
--   Builtin      lib/builtin/unix.c (Unix, with its sockets and its lock in Unix.Connection and the
--                stream of a shared connection in Unix.Shared),
--                lib/builtin/file.c (File), lib/builtin/null.c (Null) and lib/builtin/tcp.c (Tcp).
--   Memio        lib/memio and lib/builtin/memory.c: layouts, the search in them, and reads; in Writing
--                `pos_write`, and in Layout how a layout is read from a file and the storage made, with
--                the memory of it in Layout.Memory.
--   CtrlServer   lib/ctrl_server.c, lib/ctrl_client.c: the registration of children and parents. Wire
--                is a package as bytes, Client a request over a socket, and Loop the packages that
--                `server` gives to workers, `worker` on bytes, and `start_ctrl_server`.
--   Propd        lib/propd.c, app/propd/main.c: the configuration, in Options what the command line
--                makes of it, the storage that `main` adds, in Run what a run starts and stops, and in
--                Daemon the processes of `propd_run` and the pipe between them. Namespace is
--                lib/global.c: the directory of the sockets and the paths of the servers.
--   Prop         app/prop/main.c: the commands that get, set and delete keys; in Main the requests
--                to a server, the options and the choice of the command.
--   Tests        the theorems at concrete data.
--
-- State is passed explicitly: each operation takes the state and returns it beside its reply. A
-- read-write lock or mutex around a whole operation makes it one step. Failures of `malloc` and of calls of
-- the system are arguments. An address stands for a pointer that `malloc` returned; what a storage
-- acts on is a type `W` that the operations share. The expiry of a cached value is computed with the
-- wrap of `int64_t`, and the counts of `unsigned short` and `uint32_t` keep theirs; other times are
-- integers. What a socket queues at once, a number of bytes that is a parameter, arrives whole, and of
-- a longer value a `recv` gets that much. Fuel occurs in `unregister_loop`, which is given one more
-- than the length of the table, each round taking an item away; in `mask_shift`, given the 32 bits of
-- a mask; and in `mask_length`, given 3, since each call takes a byte off a number of four. `print_in`
-- prints a number with the number itself as fuel, which is enough since each round divides it.
-- `IoServer.worker` is given what surrounds each round, one entry a request.
--
-- Parameters stand for what is not in the repository: cJSON in lib/memio/layout.c, the floating-point
-- conversions and `rand_r` of the C library, `getopt` and `getopt_long` with the options that they find,
-- and what the system answers.
--
-- Not modelled: lib/infra/tree.h beyond its interface, since it is a copy of another project's
-- library; lib/mlogger and all logging, with the help texts; what is read from a stream that is out of
-- step with its reader, and behind the buffer of a control package that counts more names than it
-- holds; `item_create` of lib/cache.c without memory for the key, which frees what it has not set; a
-- client that waits for ever for a server that waits for it; the debugging aid of lib/misc.c.
pub mod Prelude
pub mod Infra
pub mod Value
pub mod Storage
pub mod Misc
pub mod Route
pub mod Cache
pub mod Io
pub mod IoServer
pub mod Builtin
pub mod CtrlServer
pub mod Memio
pub mod Propd
pub mod Prop
pub mod Tests
