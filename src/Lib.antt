-- ===== src/Lib.antt =====
-- DetSim runs the processes of a distributed program as simulated nodes, and explores the states
-- that they can reach. This is a model of the parts that decide what is explored and what a node sees
-- of its kernel, with the theorems that make these parts correct.
--
-- The program's parts and their files, by paths of the repository:
--
-- - Base: shared names. Base/Map is std::map with numeric keys as the list of its entries in key
--   order; Base/Results has the outcome of a call that may throw, and the value of a system call,
--   which is a number or an errno; Base/Archives has what the code relies on in the cereal library.
-- - Fd: the descriptor table of a node, FdManager in src/subsys/fs/fd_manager.{h,cpp}, and its archive
--   (Fd/Archive).
-- - Frontier: the search frontier, Frontier in src/core/search/frontier.{h,cpp}. Frontier/State has its
--   data and indexes, Frontier/Propagate admits states and lets shorter depths spread,
--   Frontier/Lease dispatches pending states to workers, Frontier/Commit takes their results, the loss
--   of a worker and the status. The other files of the folder hold proofs: Frontier/Invariant is the
--   interface that an invariant fills to hold after every run.
-- - Futex: the wait queues, FutexState in src/subsys/sync/futexstate.{h,cpp}. Futex/Queues has waiting
--   and waking, Futex/Requeue the move of waiters and the wake-up of a range, Futex/Handle the system
--   call; Futex/Consistent and Futex/Agreement hold proofs, as Futex/Wake does.
-- - Net: the sockets of all nodes, SockState in src/subsys/net/sockstate.{h,cpp}. Net/State has the
--   data; Net/Setup, Net/Connect, Net/Accept, Net/Stream, Net/Datagram, Net/Close, Net/Epoll and
--   Net/Options have the operations that they are named for; Net/Ports, Net/Tcp, Net/Udp,
--   Net/Accepting, Net/Closing, Net/Readiness and Net/Tuning hold proofs.
-- - Fs: the virtual files and pipes of a node, FileSystemState in src/subsys/fs/fsstate.{h,cpp}.
--   Fs/State has the data, Fs/Strings and Fs/Tree paths and the captured tree; Fs/Pipes,
--   Fs/Resolve, Fs/Files, Fs/Open, Fs/Inodes, Fs/Leaf, Fs/Namespace, Fs/Query, Fs/Ranges and
--   Fs/Mapped have the operations that they are named for; Fs/Fifo, Fs/Created, Fs/Total, Fs/Walk,
--   Fs/TreeLaws, Fs/TreeFiles, Fs/TreeOpen, Fs/TreeSteps, Fs/Contents, Fs/RangeLaws and
--   Fs/MappedLaws hold proofs, and Net/Piped those about epoll on a pipe.
-- - Process: signal actions, resource limits, capabilities, interval timers, the random stream
--   (Process/Stream) and the umask of a process, ProcessKernelState and emu_process_syscall in
--   src/subsys/process/process_state.{h,cpp}. Process/Signals and Process/Timers hold proofs. The
--   umask is kept by the file system state, and the state of the random stream is an argument of
--   its reads.
-- - Wire: the protocol between the coordinator and its workers, Channel in
--   src/core/search/protocol.{h,cpp}. Wire has the messages, Wire/Bytes little-endian numbers,
--   Wire/Encode the writer, Wire/Decode the reader, Wire/Frame the header and the two calls of a
--   channel; Wire/Law, Wire/Parts, Wire/RoundTrip, Wire/Received, Wire/Layout,
--   Wire/Checked, Wire/Parsed, Wire/Sound and Wire/Failed hold proofs.
--
-- The sockets, the files and the pipes allocate and release through the descriptor table, and epoll
-- reads the pipes of the file system state. A host is a SockState with its table and its configured
-- address, and a network is the hosts of all nodes with the node that runs, so a call that reaches
-- other nodes (connect, send, sendto, close) takes and gives the network. The tasks that the
-- protocol carries hold the tickets of the frontier.
--
-- How the code is read:
--
-- - a member function is a function from the state to the state and its result; an exception is
--   an outcome `throws`. Where the source throws after writing, the state that it leaves is given too;
-- - words are numbers; where the source can wrap, the wrap is written out. Sequence and lease numbers
--   are tested against UINT64_MAX before they are used up, as in the source. An int that carries flags
--   is its 32-bit pattern, and a mask is read by division;
-- - what is read from or written to guest memory is an argument of the call: the value read or none,
--   and whether a write succeeds;
-- - inet_pton of a node's configured address is the field `address` of its host;
-- - the loop of Frontier::propagate runs on fuel, one more than the potential of the nodes: the sum
--   over the nodes of the depth times the number of successors. An improvement lowers it by at least
--   the number of entries that it adds to the work, and so it is enough;
-- - the walk of a path runs on fuel: one for each component of the path, and 40 times one more than
--   the longest content of a node, which is more components than the 40 links that a walk may
--   follow can add. The search for a pipe id runs on one more than the number of pipes. All other
--   loops are by recursion on the structure that they walk;
-- - the hash of a path, XXHash64, is a parameter; the time that a call sets on a file is an
--   argument; the metadata of a file are the minimal ones, without FSSTATE_DETAILED_METADATA;
-- - a channel is its failure and the bytes that its peer has sent and that were not taken yet: the
--   buffers and counters of a channel are left out, and so are deadlines;
-- - a scalar of a cereal archive is a number that the archive encodes in some bytes, of no fixed
--   width; an archive that a throw interrupts is not looked at. The receiver's test of an object count
--   against SIZE_MAX / sizeof(Blob) is left out: only a frame of 2^63 bytes or more could fail it.
--
-- Not modelled: failed allocations, and so every way to poison a frontier; logging and dumps; the
-- archives of sockets, files and futexes; the emu_ functions that only forward; of the files, the
-- set-up from host mappings, the captured executable, the reading of directories and the sharing of
-- contents between snapshots; of the protocol, frames whose objects go over the object channel, and
-- the socket input and output; of the processes, the clocks, thread names, affinity and the capture
-- of a traced process; the snapshots of the workers; the ptrace engine and the other parts, which
-- are input and output or come after these.
pub mod Base
pub mod Fd
pub mod Frontier
pub mod Fs
pub mod Futex
pub mod Net
pub mod Process
pub mod Wire
