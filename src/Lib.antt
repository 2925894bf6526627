-- ===== src/Lib.antt =====
-- go-afxdp: AF_XDP sockets for Go, and the packet filter that feeds them.
--
-- A socket owns a UMEM of frames and shares four rings with the kernel. The application fills the fill
-- ring with free receive frames, receives descriptors, and recycles their frames; it allocates
-- transmit frames, transmits descriptors, and completes them. The filter is an eBPF program, assembled
-- from blocks, which decides for each frame whether it goes to the sockets or to the kernel's stack. A
-- fleet loads and attaches one program, opens a socket for every queue of an interface, registers each
-- in the program's maps, and tunes the interface while it is open.
--
-- Parts, and the code they model:
-- - Prelude: names and lemmas that the parts share.
-- - Pool: framePool (pool.go). Pool/Laws: what pop and push do. Pool/Frames: the frames at the start.
-- - Ring: umemRing and rxTxRing with the loops over their slots (socket.go). Ring/Slots: its slots.
--   Ring/Window: a ring as a FIFO.
-- - Options: Options, DefaultOptions, withDefaults (options.go) and the checks of NewSocket (socket.go).
--   Options/Config: config, newConfig and the functional options (options.go).
-- - Socket: Socket and its methods (socket.go). Socket/Inv, Socket/Tx: each method as a change of parts.
--   Socket/Frames: the frames behind addresses. Socket/Kick: the retry loop of Kick.
--   Socket/Setup: the system calls of NewSocket, each with its error path. Socket/Settled: what they
--   leave. Socket/Poll: Poll, PollWith and WakeupRx. Socket/Stats: ringCounter and Stats.
-- - Shutdown: incref, decref and Close (socket.go), operation by operation. Shutdown/Books, Shutdown/Safety:
--   what holds in every state. Shutdown/Budget, Shutdown/Drain: how Close comes to its end.
-- - Multibuffer: multibuffer.go, and SendFunc and SendBatch (socket.go). Multibuffer/Group: receiving.
--   Multibuffer/Split: sending. Multibuffer/Bytes: the bytes of a payload. Multibuffer/Hands,
--   Multibuffer/Conserve: the frames of SendFunc. Multibuffer/Chains, Multibuffer/Batch: those of SendBatch.
-- - World: a socket between its application and the kernel. World/Kept, World/Calls, World/Moves: what
--   each move keeps. World/Steps: runs of moves. World/Own: who owns a frame.
-- - Ebpf: the instructions used, on one frame. Ebpf/Run: runs of code in parts.
-- - Filter: offsets and constants (filter.go). Filter/Emit, Filter/Match, Filter/Cidr: the builders
--   (filter.go). Filter/Program: custom matches (match.go) and the assembly (filter.go).
--   Filter/Contract: blocks that pass the register check. Filter/Classify: the assembled blocks.
--   Filter/Frame, Filter/Rules, Filter/Wanted, Filter/Guard, Filter/Ports: single blocks. Filter/Words, Filter/Address: cidrTest.
--   Filter/Hosts, Filter/Local: blocks on addresses. Filter/Management: managementExceptions.
--   Filter/Tail: the prologue and tails of newFilterProgram (filter.go). Filter/Gate, Filter/Kept: the
--   whole program.
-- - Custom: the matches of examples/customfilter. Custom/Shape, Custom/Decisions, Custom/Start: what they
--   take.
-- - Packets: the packets of examples/blast, dns, udpreflector and l2fwd. Packets/Checksum: ipChecksum.
--   Packets/Build, Packets/Reply, Packets/Reflect: buildFrame, buildReply, reflect and swapMAC.
-- - Redirect: the raw program of newRedirectProgram (program.go). Redirect/Route: what it does.
-- - Load: newRedirectProgram (program.go) and newFilterProgram (filter.go), with the kernel's answers.
--   Load/Tidy: what they leave open.
-- - Program: Program and its methods (program.go). Program/Routes: runs of Register and Unregister.
-- - Tuning: tune.go. Tuning/Fleets, Tuning/Restore: fleets that open and close. Tuning/Handle: one handle
--   from its taking to its giving back.
-- - Fleet: modes, sockets and programs (fleet.go). Fleet/Locals: localPrefixes. Fleet/Open: Open, Close
--   and the other methods. Fleet/Rollback: the sockets of a failed attempt. Fleet/Attach, Fleet/Lifetime:
--   what Open leaves. Fleet/Ending: what Close leaves.
-- - Info: Info and FleetStats (info.go). Info/Sums: the sums.
-- - Examples, FilterExamples, GateExamples, PacketExamples, RuntimeExamples, FleetExamples,
--   SocketExamples: theorems at concrete inputs.
--
-- How the model corresponds to the code:
-- - A method takes the socket and returns the new one with its result. It is one step: the kernel moves
--   between methods, by the documented AF_XDP protocol. Counts and sizes are Go ints that are not
--   negative; numFilled and numTransmitted are integers. Ring indices wrap at 32 bits, counters at 64.
-- - A ring's array is a function of the slot, the UMEM one of the offset. Scratch slices, which only
--   save allocations, are left out.
-- - The answers of the kernel to sendto are a list; past its end the kernel answers without error. In
--   Socket the system calls of NewSocket are one argument, the first error if there is any; Socket/Setup
--   has them one by one, each with its own answer.
-- - The filter's symbols are pairs of a block and a place within it, which the source writes as one
--   string. The texts of Match.desc and of errors are left out. The host's byte order is a parameter.
-- - In Shutdown each atomic operation of incref, decref and Close is a step of its own, in any order of
--   any number of goroutines; a call that finds the flag set at once is a step as well. Elsewhere incref
--   leaves the test of closing, and a method is one step.
-- - Programs, maps, links, netlink and /sys answer each call with an error or none; a call that fails
--   changes nothing. The address lists of netlink and the prefixes of package netip are arguments.
-- - Blocks jump forward only, so a run is a recursion on the instructions left and needs no fuel. A
--   load outside the frame is a fault. A result on a block says that it does not fault. A block of a
--   caller's own that jumps back ends the modelled run there, and bpf_tail_call ends it by leaving for
--   another program; any other helper scratches R0 to R5 and returns. Fetching atomics are left out.
-- - The redirect program's registers and stack words are values that name the context, the stack, the
--   maps and their entries. Given any other key or map, a look-up has no known answer and a redirection
--   finds no socket.
-- - cidrTest and the examples' vniLE and dstmac words are little-endian in the source, so what is said of
--   them is said of a little-endian host. `|` of values with no bit in common is written `+`.
-- - The tails of the filter program run on values that also name the context, the stack and the maps. The
--   helpers answer as documented: a look-up with the entry's address or null, a redirection with its
--   flags where the map has no socket.
-- - fold_carries takes a fuel of 3, which is enough for any sum of 32 bits. A list of bytes has no
--   out-of-range panic; the lengths that exclude it are hypotheses.
--
-- Not modelled: ZeroCopy, which reads a socket option, the String methods, and the counts that methods
-- such as NumFilled only read (socket.go); filterDesc and portsDesc, which render text (filter.go);
-- CountQueues, the look-up of interfaces and drivers, and openFleets (fleet.go, info.go);
-- matchpacket.go, a harness; the modules bpfmatch and pcapfilter, which call third-party compilers; the
-- main functions and receive loops of the examples, with their flags and logs. The errno that a failed
-- Open ends with is not followed through the modes.
pub mod Prelude
pub mod Pool
pub mod Ring
pub mod Options
pub mod Socket
pub mod Shutdown
pub mod Multibuffer
pub mod World
pub mod Ebpf
pub mod Filter
pub mod Custom
pub mod Packets
pub mod Redirect
pub mod Program
pub mod Load
pub mod Tuning
pub mod Fleet
pub mod Info
pub mod Examples
pub mod FilterExamples
pub mod GateExamples
pub mod PacketExamples
pub mod RuntimeExamples
pub mod FleetExamples
pub mod SocketExamples
