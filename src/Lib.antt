-- ===== src/Lib.antt =====
-- A verification library for DeadHorse, a rate limiter of leaky buckets: a server that keeps one
-- bucket for each key in memory, and a Go client that spreads calls over a list of servers.
--
-- How the program's parts interact. A call of the client (client/client.go) is routed by the hash
-- of its shard key to one connection (client/conn.go), which validates the keys, asks the circuit
-- breaker of the shard (client/breaker.go), and exchanges one line with the server. The server's
-- throttler (server/throttling.go) runs all entries of the line as one all-or-none transaction on
-- the bucket store (server/store.go), each with one admission check (server/gcra.go). The store
-- drops idle buckets by rotating two generations of maps.
--
-- The files:
-- - Common: the names that the files share. Common.Tests has the Boolean tests, Common.Lists the
--   lists indexed by native numbers, Common.Int the int64 with its wrap-around, Common.Assoc the
--   strings and the maps with string keys, Common.Order the order of strings, Common.Scatter the
--   writes of results at given indices.
-- - Types, Fnv1a, Dhp1: types.go, internal/fnv1a/fnv1a.go and internal/dhp1/dhp1.go.
-- - Gcra: server/gcra.go; `gcra_check` is gcraCheck, and each helper has its name in snake case.
--   Below it, Arith and Exact compare the checked operations with exact arithmetic, Decision the
--   whole check, Window shows what a bucket admits in a window of time, Retry is about the retry
--   time, and Range about the range of an int64.
-- - Server.Store: server/store.go. A `*bucketState` is an address in a heap that holds the TAT of
--   each bucket, so that a bucket that was handed out lives on when the maps drop it. `touch` is
--   stripeFor followed by getOrCreate; `collect` is one tick of the GC timer, and `gc_loop` the
--   whole of gcLoop over the events that it receives. Lookup and Tats read the store as a map from
--   keys to buckets and TATs, Generations and Collection are about the garbage collection.
-- - Server.Throttling: server/throttling.go; `throttle` is InMemoryThrottler.Throttle, and
--   `scan_entries`, `group_buckets`, `evaluate` and `commit` are its loops and those of
--   evaluateRealGroup. Spec has the abstract transaction over a function from keys to TATs;
--   Group, Working, Evaluate and Refines show that `throttle` implements it, Transaction what a
--   caller can tell from the results, Touched which buckets a call makes hot, and Range that the
--   TATs stay in range. In `throttle` a call runs alone: the locks that it holds meanwhile are in
--   Server.Throttling.Locks.
-- - Server.Limit: what callers are granted on one key over a sequence of Throttle calls and GC
--   rotations; Conforms compares it with the limit, and Retention does for a GC interval that is
--   long enough, as README.md asks for.
-- - Server.Throttling.Locks: the locks that concurrent calls of evaluateRealGroup take; Order is about
--   who holds which, and Progress about deadlocks. Gathered has the buckets that calls collect and
--   the order of their sorted keys, Sorted what this order gives, and Calls puts them together.
-- - Server.Listening: server/textserver.go, ListenAndServe and Close; `ServerStep` is what one of
--   their goroutines does in one go, and Shutdown is about a server that is closed.
-- - Wire: what the protocol uses of Go's strconv and strings: ParseInt and AppendInt in Decimal, and
--   Fields, Split and Join in Words.
-- - Server.Text: server/textserver.go; parse_entry, format_result and handle_throttle with the
--   throttler as a parameter. Dispatch has readLine, splitCommand, dispatch, the other handlers and
--   handleConn, with `serve_line` for one round of its loop; Command is about the first word of a
--   line, and Handling about the results of a line.
-- - Client.Wire: the wire format in client/conn.go, encodeThrottle and decodeResult; RoundTrip has one
--   token in each direction.
-- - Protocol: client and server together on one line, with the request in Request, the response in
--   Response, the exchange over any throttler in Exchange, over the in-memory one in System, and
--   a sequence of requests on one connection in Pipeline.
-- - Client.Breaker: client/breaker.go; Machine has the state machine of its comments and the
--   refinement, for failures in turn (below), and Laws what callers see.
-- - Client.Conn: client/conn.go, one call on a connection. Results is about the results of a call
--   that is not answered, Delivered about one that is, Wedge about a trial that its own caller
--   gives up.
-- - Client.Pipe: client/conn.go, the calls that share a connection. In Steps, `Step` is what one
--   goroutine does between two points where it may be overtaken, in submit, ensureConn, readLoop, abort,
--   drainPending or close, and `Reach` has every state that some interleaving of them leads to. Known
--   is about which connections there are, Slots about the tokens and the room in `pending`, Dials
--   about who connects, Readers about who attends to the pending calls, Order and Answers about
--   which response line a call is given, Copies, Placed and Deliveries about where a call is, Turns
--   and Progress about the turns of a reader, Liveness and Ends about how many it needs, and Mismatch
--   about a line that the reader holds while a failed write drains the calls.
-- - Client.Sharded: client/client.go and client/simple.go; Routing is about the shard of a call, and
--   Sequence about what each shard sees of a sequence of calls.
-- - Tools: what the command-line tools compute. Tools.Keyspace has the keys that each worker of
--   tools/keyspace/main.go asks for, with Sweep about how the workers share them, and fetchKeyCount,
--   with Count about what it reads from a server. Tools.Loadtest is tools/loadtest/stats.go, with
--   Totals about a whole run, and Tools.Weights the choice of keys in tools/loadtest/main.go.
-- - TestThrottlers: deadhorsetest/deadhorsetest.go.
-- - Gcra.Examples, Server.Examples, Server.Throttling.Locks.Examples, Server.Listening.Examples,
--   Client.Examples, Client.Pipe.Examples, Protocol.Examples and Tools.Examples: runs on concrete
--   inputs.
--
-- Conventions. An int64 that a caller supplies is an integer ℤ that is meant to be in range; a value
-- that the code has shown not to be negative is a native natural number, and every sum and product
-- on it keeps its wrap-around or its overflow guard. Instants are nanoseconds since the epoch. A
-- string is the list of its code points, so that strings that are not valid UTF-8 are left out. Loops
-- are structural recursion on the list they run over. The decimal printer has fuel, one more than
-- the number printed, and each step divides the number by ten; so has the sweep of the keyspace tool,
-- the number of keys, of which each step passes one or more as long as the index, an int, does not
-- wrap around. Their theorems are proved for this fuel, that of the sweep for a number of keys and of
-- workers with which the index stays in range.
--
-- Parameters of the model. The readings of the clock are arguments. What the network does with a
-- request is an argument of the client's call: how the exchange ends, and whether the caller's own
-- context is done at that time; no law is assumed of it. The error of the server's context is an
-- argument of `throttle`. The text server takes its throttler as a parameter, a function on a state of
-- any type, as the code takes an interface. So is sort.Strings where the keys of the locks are sorted:
-- `IsSort` has what is known of it, that the result ascends and has the same strings.
--
-- The failures of the breaker. The comments of client/breaker.go take a failure during a trial for the
-- trial's, and say that one of another call while the breaker is open is just counted. In Machine a
-- failure says whose it is. `IsInTurn` leaves out a call that was let through before the breaker
-- opened and fails late: there the code does not do what the comments say, as Client.Examples shows.
--
-- The steps of a connection. A call is its place in submit or ensureConn, a reader its place in
-- readLoop or drainPending, and a connection has the number in which it was dialed. A send into
-- `pending` and the write behind it are one step under `mu`, which is what the section is for; a
-- receive from `pending` and the release of its token are one step, since neither waits. Whether a
-- dial, a read or a write fails, when the context of a caller ends, and what a response line says is
-- left open: a state has a step for each outcome. For the theorems, `queued` records the calls that
-- were put into `pending` of a connection, `sent` those whose request was written in full, in the
-- order on the wire, `failed_writes` how many were not, `answered` the calls that lines were matched
-- with, and `drained` how many were drained. A call is given one request, and the number of calls is
-- a parameter.
--
-- The locks of the server. In Server.Throttling.Locks concurrent calls collect the buckets of their
-- keys, one call after the other, and then take the locks in the order of the sorted keys, and give
-- them up, with the single Lock and Unlock steps of all calls interleaved; what a call computes under
-- its locks is in Server.Throttling.
--
-- Not modelled. Outside of the parts above each method is one step: the atomics of the breaker are
-- read and written together, and a Throttle call reads and writes the store in one go, also where
-- other calls or the GC come in between while it looks its buckets up. Also left out are the
-- deadlines of the server, which end a connection, the metrics in server/metrics.go, the
-- program under cmd, and the flags, timers and printing of the tools, which are input and output
-- around the parts above.
pub mod Common
pub mod Types
pub mod Fnv1a
pub mod Dhp1
pub mod Gcra
pub mod Wire
pub mod Server
pub mod Client
pub mod Protocol
pub mod Tools
pub mod TestThrottlers
