-- ===== src/Lib.antt =====
-- x0: the HTTP/1 parser and generator, the HPACK codec, the Raft library, the token shaper and the UTF-8
-- code of the server framework, as functions on their states, with the theorems that make them correct.
--
-- The program. x0 (src/xzero) is a C++ library for network servers, with an HTTP server on top of it.
-- Three of its parts speak with peers by bytes or keep state that these have to agree on, and are
-- modelled here, with the shaper by which its load balancer shares out capacity and its UTF-8 code:
-- - raft: a server replicates a log of commands. Its handlers take the messages of other servers. A
--   transport turns messages into frames of bytes with raft/Generator.cc and reads them back with
--   raft/Parser.cc; both use util/BinaryWriter.cc and util/BinaryReader.cc.
-- - http/hpack: the header compression of HTTP/2. The encoder (Generator.cc) and the decoder
--   (Parser.cc) each keep a dynamic table, which must stay equal at both ends of a connection.
-- - http/http1: Parser.cc takes the bytes of a connection in fragments, as they come, and tells its
--   HttpListener of requests, responses and their content; Generator.cc writes messages.
--
-- The files.
-- - Base: native numbers, lists, bit operations, and Outcome, the result of code that can throw. The
--   fault `undefined` marks a step to which C++ gives no meaning.
-- - Wire: src/xzero/util/BinaryWriter.cc and BinaryReader.cc. A writer is the bytes that it hands on;
--   a reader is a function from the bytes that are left, and gives those left after it. Theorems in
--   Wire/VarUInt, Wire/Signed and Wire/Strings; Wire/Reader composes readers.
-- - Raft/Rpc: src/xzero/raft/rpc.h and Listener.h, the messages.
-- - Raft/Generator and Raft/Parser: Generator.cc and Parser.cc, the payload of each message. Theorems
--   in Raft/Parser/RoundTrip and Raft/Parser/Progress.
-- - Raft/Framing: Parser::parseFrame and parseFragment of Parser.cc, over a buffer and an offset.
--   Frames has one frame, Chunks a whole connection, Ends termination.
-- - Raft/Storage: MemoryStore of Storage.cc: the vote, the term and the log.
-- - Raft/Server: Server.cc, the handlers of vote requests and responses, of append requests and the
--   election timeout; each handler is one critical section under serverLock_. Raft/Server/Commit has
--   the leader's side: computeCommitIndex, the handler of append responses, tryLoadLogEntries,
--   replicateLogsTo, applyLogs and sendCommandAsync. The handler of append requests is there as it is
--   compiled without assertions, and with the assertion on the last index as a second function. Theorems in
--   Election, Election/History (a step relation over all events, and runs of it), Replication, with Stores
--   (the log), Asserted (the assertion) and Answers, Commit/Index, Commit/Apply, Commit/Load and Commit/Replicate (a leader's request at a follower).
-- - Raft/Cluster: several servers, with LocalTransport.cc and src/xzero/executor/LocalExecutor.cc between
--   them. Vote requests and their answers are tasks in a queue; append requests reach a server from
--   outside, with any content. Tally counts members, Keeps says what a request leaves of an election,
--   Elections has the invariant of one, Tasks, Answers and Timeouts keep it, Invariant joins the
--   servers, and Safety has how many lead. Rounds, Hearing, Elected and Liveness follow one election through
--   the executor, and Executor makes what it does a run.
-- - Hpack/Table: src/xzero/http/hpack/DynamicTable.cc. Theorems in Eviction and Lookup.
-- - Hpack/Static: StaticTable.cc, both arrays and the binary search. Theorems in Static/Lookup.
-- - Hpack/Integer: Generator::encodeInt and Parser::decodeInt. Theorems in Integer/RoundTrip.
-- - Hpack/Parser and Hpack/Generator: Parser.cc, with Huffman.cc, and Generator.cc. What the encoder
--   writes and the decoder reads of it is in Hpack/RoundTrip.
-- - Http1/Chars, State, Parser: src/xzero/http/http1/Parser.cc and Parser.h. Parser/Step says what a
--   round of the loop of parseFragment can do; StartLine, Headers and Content have one function for
--   each case of the switch, and Loop the switch and the loop. What the listener is told is a list of
--   events. Theorems in Parser/Progress (the invariant and each round), Ends (termination), Observe,
--   Bulk, Splits and Fragments (any cut into fragments), Keeps and Calls (a parser over several calls).
-- - Http1/Numeral, Status, Generator: src/xzero/http/http1/Generator.cc, with HttpInfo.h, HttpStatus.cc
--   and the numbers of Buffer.h. Theorems on the length of the content in Generator/Bounds.
--   Http1/RoundTrip reads what was written: Leads goes from one parser
--   to another over a part of the bytes, Line has the request line, Header and Head the fields,
--   Decimal and Hexadecimal the numbers, Finish the end of a message, Written the bytes, Sized the
--   requests with a content length, and Chunk and Chunked those without.
-- - Utf: src/xzero/UTF8.cc. Theorems in Utf/RoundTrip and Utf/Validity.
-- - Shaper: src/xzero/TokenShaper.h and TokenShaper-inl.h. A node is seen at its place in the tree: it,
--   and the way up to the root. Sums has the sums over children without wrap-around, Valid the
--   invariant of a tree, Gets, Lends and Puts what get and put do to it, Runs any sequence of these.
--   Shaper/Queue has the packets that wait at a node, with their timeouts; theorems in Queue/Order and
--   Queue/Timeouts.
-- - Http2: src/xzero/http/http2. Generator writes frames, Parser reads them, with the kinds of frames in
--   Control and Requests and the state in State; the numbers are those of src/xzero/io/DataChain.cc.
--   Words has the numbers and a chunk of one frame, Ends the loop over frames, Messages, Payloads and
--   RoundTrip what is sent in one frame, Pieces data in several, Refused the requests that are refused.
-- - Balancer: src/xzero/http/client/HttpCluster.cc `schedule`, with HttpClusterScheduler.cc `RoundRobin`
--   and HttpClusterMember.cc `tryProcess`. Rounds has the loop over the members, Gives, Answers and Best what
--   comes of it, Waits the queue, with the requests that time out when another is put in (HttpCluster.cc
--   `onTimeout`), and the counters, and Tokens the request and the tokens of the shaper.
-- - Tests: runs at concrete inputs.
--
-- Numbers. A number is a natural number; a machine word has its wrap-around written out, `% 2 ^ 64` or
-- `% 256`. A signed integer is its two's complement pattern. Strings are lists of byte values.
--
-- Fuel. parse_frames has one more step than the buffer has bytes, and a frame takes at least one. The
-- loop of the eviction has one more than the table has entries, of which each step drops one. The
-- binary search has 61, the length of the table, and its window shrinks. parse_fields has as
-- many rounds as the block has bytes (Hpack/Parser/Progress). apply_logs takes its
-- fuel as an argument; one round more than there are entries to apply is enough (Commit/Apply).
-- parse_fragment has four times as many rounds as the fragment has bytes, and four: at most three rounds
-- follow each other that take no byte (Http1/Parser/Ends). A printed number has 65 digits at most,
-- and a size_t no more than 20.
-- execute_deferred_tasks runs as many tasks as its fuel says; twice the number of members is enough for
-- an election (Raft/Cluster/Liveness).
-- The loop over the frames of a chunk has as many rounds as the chunk has bytes (Http2/Ends), and data
-- is sent in at most one frame more than it has bytes (Http2/Pieces).
-- is_valid_utf8 takes fuel because the loop of isValidUTF8 need not end; `none` is when it is used up.
--
-- Not modelled: timers, threads, wakeups, promises and logging of the Raft server, FileStore and
-- snapshots; floating-point numbers of the wire format; the fragments of HTTP/1 as ranges of a
-- buffer that can move, and a parser without a listener; the HTTP connections and channels, HTTP/2
-- connections and streams, FastCGI, requests that come back from a backend of a cluster, and its
-- health checks, the Flow language (src/xzero-flow) and its virtual machine, sockets, files and the
-- daemon (src/x0d), which are input and output, or larger than this library.
pub mod Base
pub mod Wire
pub mod Raft
pub mod Hpack
pub mod Http1
pub mod Utf
pub mod Shaper
pub mod Balancer
pub mod Http2
mod Tests
