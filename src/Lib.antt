-- ===== src/Lib.antt =====
-- epx is a replicated store on the EPaxos protocol: replicas order commands over key ranges by
-- agreeing, per command, on a sequence number and on the instances that it depends on. A client's
-- command arrives at a replica (`propose`), which gives it an instance in its index and sends
-- `PRE_ACCEPT`; messages of other replicas arrive at `step`; both end in `progress`, the state
-- machine of src/epaxos.c. A handler reads the indexes (src/replica.c, src/index.c), changes its
-- instance (src/instance.c) and hands messages to the node's I/O thread, timers to the wheel and
-- committed instances to the executor.
--
-- The files, and what they model (paths of the repository):
--   Base          Boolean tests, C arrays as lists, bit operations, and `Outcome`: a value or a
--                 fault (a null pointer read, an index out of bounds, fuel run out)
--   Epx           include/epx.h: the configured limits
--   InstanceId    src/instance_id.h, src/instance_id.c, and `dh_key` of src/replica.c
--   Command       src/command.h, src/command.c: key ranges, `overlaps`, `interferes`
--   Message       src/message.h: states and messages
--   Instance      src/instance.h, src/instance.c, and `new_tracker` of src/replica.c;
--                 Instance.Ballot the ballots, Instance.Deps the dependency arrays
--   Extern        the third-party libraries, as parameters, and the documented behaviour of a tree
--   Index         src/index.c; Index.Spans its merging of key ranges
--   Replica       src/replica.h, src/replica.c: the indexes, the timers and the channels
--   Epaxos        src/epaxos.c: `do_commit` and `recover`; its children hold the other handlers:
--                 Leader, Acceptor, Recovery, TryReply; and Progress, with `progress`, `step`,
--                 `propose`, `checkpoint` and the timeouts
--   Epaxos.Run    `run` of src/epaxos.c as a step relation over the entry points; Epaxos.Run.Loop
--                 its loop, with `tick` of src/replica.c, as functions
--   Executor      src/execute.c: the executor's graph; Executor.Visit Tarjan's algorithm, and
--                 Executor.Components the execution of a component and a round of `run_execute`;
--                 Executor.Tarjan the invariant of the algorithm, and its proof in parts: Nodes and
--                 Member, Popped, Loop and Calls, Enter, Leave, Room, Connected, Reset and Correct;
--                 Executor.Frame what it leaves alone, Executor.Rounds what a round keeps
--   Storage       src/storage.h, src/storage.cpp: keys and values on RocksDB (`Extern.Rocks`)
--   Schema        src/fbs/epx.fbs: the tables of a message; Command.Codec and Message.Codec the
--                 functions of src/command.c and src/message.c that write and read them
--   Socket        src/fbs_sock.h, src/fbs_sock.c: messages behind their length on a stream
--   SimpleChannel src/simple_channel.h, src/simple_channel.c: a ring buffer between threads;
--                 SimpleChannel.Steps its threads, SimpleChannel.Queue its contract
--   Channel       src/channel.h, src/channel.c: channels over rings
--   NodeIo        src/sync.h, src/io.h, src/io.c: a node's connections; NodeIo.Broadcast the
--                 broadcasts and the quorum, NodeIo.Clients the clients of key ranges, NodeIo.Serve
--                 the threads of a connection, NodeIo.Life its tries and its end, NodeIo.Delivery a
--                 message from one node to another, NodeIo.Start `new_node` of src/node.c
--   Tests         concrete libraries, instances and messages
-- The remaining children hold proofs, and are named for what they prove.
--
-- How the state corresponds. `World` is what a handler's three pointers lead to: the replica, the
-- instance and the message. The instance is kept beside the replica, whose index holds it too; it is
-- written to its place (`store`) before an index is read and when `progress` returns. The index of
-- one replica is a tree of the library that llrb-interval generates: `Llrb` is its interface and a
-- parameter, as are the tree of key ranges (`SpanTrees`) and klib's hash maps (`Khash`, `Vertices`).
-- Where a theorem depends on how the tree behaves, it takes `LlrbLaws`, the behaviour of a search tree, as a
-- hypothesis. What a handler sends, hands to the executor or sets a timer to is added to `trace`,
-- newest first; a message is recorded as it is when it is sent, so what a later write through the
-- same pointer does to a message in a channel is not modelled, nor is a full channel.
-- Allocations succeed or fail by the list `allocs`; memory that `malloc` leaves unset is an argument.
-- Commands are values: where `merge` widens a range of a command in place, the change is seen through
-- the pointer that was passed and not through others to the same command. A range that the code puts
-- into a tree from a variable of the stack goes in by value. The array that `overlap_sparse` writes
-- is a list without a bound; the C code does not compare its index with the array's size either.
--
-- In the executor a pointer to a node is its place in the list of the nodes allocated, and instances
-- are read and written in the replica's indexes; what the replica's thread does meanwhile, and what
-- `free` does, are not modelled. A component beyond `MAX_DEPS`, or a component of more nodes, is a
-- write out of bounds.
--
-- Bounds and fuel. Numbers are naturals; bytes, ballots and 64-bit numbers wrap where the code
-- computes them (`u8`, `u64`). A loop over a tree runs on fuel, the size of the tree: it meets an
-- instance once. `progress` calls itself on fuel 2: its handlers restart with `PHASE1` only, whose
-- handler makes no such call. `visit` runs on one more than the number of nodes: a path of calls
-- meets no node twice. Loops over arrays and over the replicas are structural.
--
-- The channels. A channel of src/simple_channel.c is shared by threads: a state counts the threads at
-- each point inside `simple_chan_send` and `simple_chan_recv`, a step is a wait that does not block,
-- the access to the buffer under the lock, or a post, and what is reached is any order of such steps.
-- The channels of src/channel.c are rings of the library ck, a parameter: `CkRingLaws` is what its
-- documentation says. In NodeIo a message is a pointer, a number, and the memory a function, so that
-- what a broadcast writes to a message that already waits in a channel is modelled.
--
-- Encoding. The code that flatcc generates from src/fbs/epx.fbs is a parameter (`Schema.Flatcc`); the
-- tables are records, and the theorems are about what is written to a table and read from it. The
-- bytes of a stream, `Socket.Bsock`, are libdill's, a parameter as well.
--
-- What libdill, the system and RocksDB answer is an argument: the outcome of each try of a connection and
-- what its coroutines, of which NodeIo.Serve has the rounds, make of it before `bundle_wait` returns,
-- what `choose` gives to `run` and which timers are due by a tick, and the results of RocksDB's calls,
-- whose documented behaviour is `RocksLaws`. That of klib's map is `VertexLaws`. A `kh_put` that fails for lack of memory is left out.
-- `Turn` of Epaxos.Run allows the calls in any order; the order of the inputs is that of the list
-- which `run` of Epaxos.Run.Loop takes.
--
-- Not modelled: in src/io.c the listeners, `run_client_fbs`, `start_io` and the closings of `stop_io`,
-- the rest of src/node.c, and src/main.c, which are calls of libdill and of the system; `close_store`
-- of src/storage.cpp, which only frees, and src/fsync.c, a stub; the coroutines of src/replica.c, which
-- hand messages from channel to channel, and the construction and destruction of a replica's channels
-- and timers, which are calls of libraries; and src/queue.h, which is third-party.
pub mod Base
pub mod Epx
pub mod InstanceId
pub mod Command
pub mod Message
pub mod Instance
pub mod Extern
pub mod Index
pub mod Replica
pub mod Epaxos
pub mod Executor
pub mod Storage
pub mod Socket
pub mod Schema
pub mod SimpleChannel
pub mod Channel
pub mod NodeIo
pub mod Tests
