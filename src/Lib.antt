-- ===== src/Lib.antt =====
-- fire-redis: a key-value server that speaks the Redis protocol.
--
-- A connection's bytes are decoded into RESP values (src/resp.rs). A request, an array of bulk strings,
-- is parsed into a command (src/commands/mod.rs), which runs on the shared keyspace through a handler
-- (src/commands/data.rs, src/commands/conn.rs) and the methods of the store (src/store). The reply is
-- a RESP value again, which the codec encodes. The connection (src/server.rs) sends each write command
-- to the persistence manager (src/persistence/manager.rs), which appends it to a log
-- (src/persistence/aof.rs), saves snapshots (src/persistence/rdb.rs) and loads the one or the other at
-- the start. src/metrics.rs counts. The connections and the background tasks share the keyspace, the
-- counters and the manager, and run at once. The programs in src/bin are the server's entry point, a
-- command line client and a benchmark.
--
-- Files and sources:
--   Prelude, Prelude/*    tests on numbers, integers with Rust's casts, byte strings, lists, panics
--   Dict, Dict/*          HashMap, DashMap and HashSet as association lists
--   Decimal, Utf8         Rust's printing and parsing of integers, and its decoding of UTF-8
--   Platform              the order and the conversions of f64, and the capacities at which std panics,
--                         as parameters
--   Resp                  src/resp.rs: RespCodec::decode as `decode`, encode as `encode`, and each
--                         parse function under its name
--   Resp/*                the decoder's bounds, its stability under more bytes, the round trip
--   Metrics               src/metrics.rs: the counters, each method under its name
--   Metrics/Snapshot      src/metrics.rs: MetricsSnapshot, and the text of INFO
--   Metrics/Latency, Order
--                         the histogram, and the order of a snapshot's counts
--   Store                 src/store/mod.rs: `Store` holds the two tables; each method by its name
--   Store/Strings, Lists, Hashes, Sets, SortedSets
--                         src/store/string.rs, list.rs, hash.rs, set.rs and sorted_set.rs
--   Store/Expiry, Store/Strings/Reads, Store/Lists/Range, Store/Lists/Ends, Store/SortedSets/Order
--                         the laws of these operations
--   Store/SortedSets/Buckets, Agreement, Whole
--                         the two indexes of a sorted set, under each of its operations
--   Commands/Types, Args, SetOptions, Parse, Execute
--                         src/commands/mod.rs: `Command`, the bulk_to_ functions, TryFrom, execute
--   Commands/Conn         src/commands/conn.rs
--   Commands/Data/*       src/commands/data.rs, the handlers by the type they work on
--   Commands/WrongType    the commands on one type at a key of another
--   Keeps, Keeps/*        what every command keeps: the frame of a command, and the invariant
--   Keeps/Scores          the reads of one sorted set
--   Keeps/Reads, Unlogged the commands that are not logged
--   Persistence/Config    src/persistence/mod.rs: PersistenceConfig and PersistenceStats
--   Persistence/Aof       src/persistence/aof.rs: AofWriter as `AofWriter`, its methods as `append`,
--                         `fsync` and `truncate`, replay_with_metrics as `replay`, rewrite_aof,
--                         value_to_commands and should_log_to_aof
--   Persistence/Aof/*     the replay of a log, and of a rewritten one
--   Persistence/Rdb       src/persistence/rdb.rs: RdbSerializer, save_to_file as `save`
--   Persistence/Rdb/Reader
--                         src/persistence/rdb.rs: RdbDeserializer, load_from_file as `load`
--   Persistence/Rdb/*     the round trips of lengths, strings, values, records and files
--   Persistence/Entries   the entries of a saved store, restored one after the other
--   Persistence/Manager   src/persistence/manager.rs: save as `save_rdb`, rewrite_aof as `rewrite`, and
--                         a round of each background task
--   Persistence/Manager/Restart
--                         what a server finds when it starts again
--   Server                src/server.rs: handle_connection and what it calls, a round of the evictor
--                         and of the metrics updater
--   Server/Config         src/server.rs: ServerConfig
--   Server/*              the replies of a connection, its keyspace, its counters, and what it logs
--   Server/System         src/server.rs: the whole server. `Step` has a constructor for each thing that
--                         a task of it does next, `Run` is a sequence of steps: `start` is Server::new,
--                         `accept`, `take_turn` and `close` are the arms of the accept loop and of a
--                         connection, `write_next` is the writer's task, and `with_manager` lends the
--                         server's state to a method of the manager
--   Server/System/*       the keyspace, the counts, the replies and the log along a run, and the next start
--   Http                  src/http.rs: the routes, and the response to the bytes of a request
--   Http/Framing          a client that reads the responses
--   Binaries/Environment, Cli, Benchmark
--                         src/bin/server.rs, cli.rs and redis_benchmark.rs
--   Binaries/Text         the text functions of std that src/bin uses
--   Binaries/Benchmark/Prefill
--                         src/bin/redis_benchmark.rs: the commands that `prefill` sends
--   Binaries/Benchmark/Prefilled, Keyspace, Ranges
--                         what they leave on the server, and its answers to the tests of LRANGE
--   Binaries/*            the client against the server, and the totals of the benchmark
--   Tests, Tests/*        the theorems at concrete inputs
--
-- Modelling. A method takes the store and returns it beside its result, and `now` is what
-- Instant::now() reads in it, in nanoseconds; one command reads the clock once and runs as a whole. A
-- table is the list of its entries in the order of its iteration, and the theorems hold for every such
-- order. The parse functions of commands/mod.rs that differ in one constructor are one function with
-- that constructor as an argument. Machine arithmetic wraps as in a release build. Code that can panic
-- returns an `Outcome`; the capacity overflow of Vec::with_capacity, on the length of an array or of a
-- collection in a file, is a panic too. How many elements there is room for depends on the sizes that
-- the compiler gives to types, so it is a parameter. The fuel of `parse_value` is one unit for each
-- nested call: twice the length of the buffer and three more, since an item consumes at least one
-- byte. `execute` takes the text of INFO as a parameter, for which Metrics/Snapshot has `info_string`.
--
-- A file is its bytes, and reading or writing one does not fail. The bytes of an append are in the
-- file at once; tokio may still hold them for a while, and a process that is killed then loses them.
-- The reader of a snapshot keeps its position with the bytes from there on. A save reads each clock
-- once for all entries, and so does a load; `wall` is the wall clock in milliseconds. A replay's clock
-- gives the instant at which its n-th command runs. The loops of a replay and of a load run on fuel,
-- one unit more than there are bytes: a frame and a record take at least one byte each. A connection
-- is the list of what the codec yields, a panic of its decoder included, and of the server's shutdown,
-- each with the time at which it is served.
--
-- The whole server is a relation between its states: a step is one item that one connection serves, or
-- one round of a background task, and the steps of different tasks come in any order. The state
-- records what each connection has taken, and how many of the commands sent to the persistence channel
-- have been through the writer's task. Time is that of each step. In the benchmark the requests of the
-- `redis` crate and the arithmetic on f64 are parameters, and so is, in the client, the form in which
-- the `bytes` crate shows bytes.
--
-- Not modelled: the sockets, the signals and the waiting of src/server.rs and src/http.rs, which are
-- tokio's; failing input and output; tracing (src/observability.rs); the reading of arguments by clap,
-- the other requests of the benchmark and its clearing of the store, which the `redis` crate makes,
-- and the tables that it prints; the benchmarks under benches; and memory that runs out.
pub mod Prelude
pub mod Dict
pub mod Decimal
pub mod Utf8
pub mod Resp
pub mod Platform
pub mod Metrics
pub mod Store
pub mod Keeps
pub mod Commands
pub mod Persistence
pub mod Server
pub mod Http
pub mod Binaries
pub mod Tests
