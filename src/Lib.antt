-- ===== src/Lib.antt =====
-- A model of side-eye-go, the library that makes a Go program visible to the Side-Eye service. The
-- program connects to the service (sideeye, internal/sideeyeconn), by a listener that dials and hands
-- the connections to a gRPC server (internal/serverdial). The handlers of that server
-- (internal/server) fetch a program for a snapshot and run it: with the world stopped, the snapshot
-- code (internal/snapshot, internal/stackmachine) interprets the program, and copies the frames of
-- goroutines and the data behind their pointers into an output buffer. internal/apiclient asks the
-- service for snapshots.
--
-- The parts, and the files that model them:
--   * Prelude: words of 32 and 64 bits with their wrap-around, lists with native indices, and
--     Prelude.Effects, code over a state that may stop: with a Go panic, with an access outside of
--     the memory that an unsafe pointer was made for (`fault`), or because fuel of the model ran
--     out (`stuck`). Prelude.Effects.Keeps has the rules for invariants of such code.
--   * Memory: bytes at offsets, and the memory of the process. internal/stoptheworld/
--     stop_the_world.go, Dereference: a copy that stops at the first unmapped byte, with any part of
--     it done before.
--   * Framing: internal/framing/framing.go, the sizes of the records and the queue entry.
--   * Fifo: internal/fifo/queue.go. The nodes are in a heap that the queue carries; a pointer is a
--     number. Fifo.Node and Fifo.Chain are about the ring buffers and the chain of nodes, Fifo.Holds
--     says what list a queue holds, Fifo.PushBack and Fifo.PopFront relate the methods to it.
--   * Queue: internal/snapshot/queue.go, the queue of pointers with its set of seen keys (a list).
--   * OutBuf: internal/snapshot/out_buf.go. The slice and its backing array, the methods that work on
--     offsets (OutBuf) and those that write records (OutBuf.Framed). `Ptr` is modelled by the reads
--     and writes that its callers make through it.
--   * OpDecoder: internal/stackmachine/op_decoder.go, the codes, the operands and the Decode methods.
--     OpDecoder.Encoding writes the wire format down apart from the decoder.
--   * Program: the messages of internal/snapshotpb that the code reads.
--   * Search: `sort.Search` of the Go library.
--   * Resolver: goRuntimeTypeResolver and typeIdResolver of internal/snapshot/snapshot.go.
--   * Machine: internal/snapshot/stack_machine.go. Machine.State is the struct stackMachine, with the
--     queue, the buffer and the resolver that it points to as parts of its state; Machine.Control,
--     Machine.Enqueue, Machine.Data and Machine.Context have one function `op_*` for each case of
--     Run, and Machine.Run the dispatch and the loop. Machine.Sound is the invariant of the machine,
--     Machine.Calls and Machine.Loops are about the calls and loops of a program.
--   * Unwinder: internal/snapshot/unwinder.go with unwinder_amd64.go and unwinder_arm64.go, and
--     murmur2 of snapshot.go. Snapshotter: snapshotGoroutine of
--     internal/snapshot/snapshot.go, in Snapshotter.Pointers processQueue, and in Snapshotter.Take
--     Snapshot; a goroutine is the address of its `g`, and its fields are read as in
--     internal/allgs/traceback.go. Snapshotter.Classify is about the frames of interest,
--     Snapshotter.Header about the header of a snapshot.
--   * StopTheWorld: the rest of internal/stoptheworld/stop_the_world.go, the addresses that the signal
--     handler uses and the order in which StopTheWorld sets things up and undoes them.
--   * Go: errors, results and the chains of `if err != nil`. Server.Act: the calls that a handler
--     makes, in order, and what it returns. Server.Guarded: the variable `stop` of a handler, with the
--     deferred function that tests it.
--   * Dial: internal/serverdial. The file itself has newDialer, `writeHeader` over what its calls of
--     Write return, and the connection that is closed once; Dial.Listener is a step relation for the
--     goroutine of `run` with Accept, Close and the closing of connections, in any order.
--   * Conn: internal/sideeyeconn/side_eye_conn.go. The file itself has Connect and Close as one caller
--     sees them; Conn.Threads interleaves callers and the goroutines that serve.
--   * Server: Server.Fetcher is internal/server/fetcher.go, the cache of programs and the fetcher behind
--     it. Server.Info (NewServer, MachinaInfo, WatchProcesses), Server.Handlers (Snapshot,
--     GetExecutable, the hash of the executable) and Server.Capture (the CPU profile, the execution
--     trace) are internal/server/server.go.
--   * Api: internal/apiclient/api_client.go and sideeyeclient/client.go. SideEye: sideeye/side_eye.go
--     and, in SideEye.Page, sideeye/http_handler.go.
--   * Tests: runs and theorems at concrete inputs.
--
-- The loop of Run makes at most 100,000 steps, as in the source. The walk along a chain of contexts
-- in PrepareGoContext and the loop of processQueue have no bound in the source; they run on fuel
-- here, and end as `stuck` where the fuel does not suffice. Snapshotter.Ends is about the fuel of
-- processQueue; a chain of contexts can be endless. The loop that sends a profile runs on as much
-- fuel as there are bytes, and each round takes some. The loops that read a stream, a pipe or the
-- results of a shared call go over the list of its answers, and say so where it ends before they do.
-- All other loops are structural.
--
-- Where the code calls the network, the file system, the profiler, the clock or another package, the
-- answers are arguments of the model. A handler is the list of its calls and its result.
--
-- Not modelled: the assembly of the signal handlers and the stopping of the world by the Go runtime;
-- the order of the sends of the two goroutines of Capture; the HTML template of the page; logging,
-- the generated messages and the build tools. The blank fields of records are 0. The frame header is
-- an offset into the buffer instead of a pointer.
pub mod Prelude
pub mod Memory
pub mod Framing
pub mod OutBuf
pub mod Fifo
pub mod Queue
pub mod Program
pub mod Search
pub mod Resolver
pub mod Machine
pub mod Unwinder
pub mod Snapshotter
pub mod OpDecoder
pub mod StopTheWorld
pub mod Tests
pub mod Go
pub mod Dial
pub mod Conn
pub mod Server
pub mod Api
pub mod SideEye
