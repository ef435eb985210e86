-- ===== src/Lib.antt =====
-- koho relays TCP connections through a UDP tunnel. This library models the relay and the utilities
-- that it stands on, and proves what each part does.
--
-- The TCP splitter has two ends. The client (src/tcp_splitter/tcp_splitter_client.cc) accepts TCP
-- connections that the kernel has redirected, gives each an id, and tells the server where it was
-- going; the server (src/tcp_splitter/tcp_splitter_server.cc) opens a connection there under the same
-- id. After that both ends do the same: bytes that a connection brings go to the other side in a
-- packet with its id, bytes of a packet are written to its connection, and an empty body says that a
-- connection is at its end. Each end is one loop over an epoller, whose callbacks are its handlers.
--
-- The files, and the code that they model:
--   Packet: src/tcp_splitter/split_tcp_packet.{hh,cc}, the wire format; Packet/Words has the
--     lemmas on 64-bit words, Packet/Laws the round trips and the errors of the parser.
--   Splitter: src/tcp_splitter/tcp_splitter_common.hh and split_tcp_connection.hh. The state is the
--     mutex, the map of connections, the epoller and the socket to the other end, with a record of
--     what the kernel was given: descriptors to connect and where to, bytes for each connection, and
--     descriptors to close.
--     Splitter/Invariant has the invariant of both ends, Splitter/Relay the handler for a
--     connection's bytes, Splitter/Delivery what a packet does to its connection, and Splitter/Ids that
--     neither makes a new id.
--   Splitter/Client, with Construct, Handlers (datagrams of the server), Accepting and Validity (new
--     connections), Polling (a round of the loop in which a connection ends) and Lifetime (any number of
--     rounds, from the constructor on).
--   Splitter/Server, with Construct, Handlers, Opening and Validity (datagrams of the client), and
--     Lifetime.
--   Splitter/EndToEnd: both ends together.
--   DnsProxy: src/util/dns_proxy.{hh,cc}. The file itself has the constructors, the handlers and
--     the thread for one datagram; Udp is about that thread. Relay is the thread for one
--     connection, two rings between two sockets, and Registration joins the handlers to an event
--     loop; Channel is what such a relay promises, without rings and pollers, and Refine that the
--     relay keeps it.
--   ByteStreamQueue: src/util/bytestream_queue.{hh,cc}, a ring of bytes. Splice has the list lemmas,
--     Invariant the counts, Push and Pop one call each against a queue of bytes, and Stream runs of
--     pushes and pops.
--   FileDescriptor: src/util/file_descriptor.{hh,cc}; Writes has what reads and writes do, Construct
--     its constructor.
--   Address: src/util/address.{hh,cc}; Order has the comparisons, Names the printing and errors.
--   Socket, with Options: src/util/socket.{hh,cc} and src/util/autosocket.hh; Laws is about the
--     AutoSocket.
--   Epoller: src/util/epoller.{hh,cc}; Laws has the fate of every ready descriptor, Keeps how what
--     every callback keeps is kept by poll.
--   Poller: src/util/poller.{hh,cc}; Laws has what it asks the kernel for, and its loop, Keeps how a
--     relation that every callback keeps is kept by poll.
--   ChildProcess: src/util/child_process.{hh,cc}; Laws has its waits, End its destructor.
--   EventLoop: src/util/event_loop.{hh,cc}. The file itself has the signal handler, with Laws about
--     SIGCHLD; Running has the rest, with Unprivileged about its change of privileges.
--   Privileges: drop_privileges and TemporarilyUnprivileged of src/util/util.{hh,cc}. Dropping is about
--     what cannot be regained, Restoring about what is.
--   Util: the rest of src/util/util.cc, and src/util/timestamp.cc; Laws has the checks at the start.
--   Interfaces: src/util/interfaces.{hh,cc}. The file itself has the search for free addresses, over the
--     addresses in use; Routes has the constructor, which finds these, and Reading its parser.
--   NetDevice: src/util/netdevice.{hh,cc}; Nat: src/util/nat.{hh,cc}; DnsServer:
--     src/util/dns_server.cc; SystemRunner: src/util/system_runner.cc; SocketPair:
--     src/util/socketpair.{hh,cc}; Signals: src/util/signalfd.{hh,cc}; TempFile:
--     src/util/temp_file.{hh,cc}. Each has its theorems in Laws.
--   KohoServer: src/frontend/koho-server.cc, which puts the DNS proxy and the splitter server together;
--     Laws has what its event loop starts with.
--   Text: src/util/ezio.cc, and the functions of the C library on decimal numbers that the code uses.
--   Prelude: the shared names. Prelude/Outcomes models src/util/exception.hh: how a call ends.
--   Tests: the theorems at concrete inputs, in a small world of kernel, resolver and states.
--
-- Conventions. A call ends in an Outcome: a value, an exception, a failed assertion, or undefined
-- behaviour; a stateful function takes the state and returns the outcome with the new state, so
-- that what was changed before an exception stays changed. `running` is the outcome of a loop whose
-- list of the kernel's answers is at its end. The kernel and the resolver are records of functions
-- (Os, Net, EpollOs, PollOs, Wait, Resolver, Kernel, Machine, Messages, Files, Sigset) that answer
-- each call, and `none` is a return value of -1. Where calls change something that the program can
-- ask for later, the ids of its process or the machine's interfaces and rules, they work on a state
-- that only they know. Theorems that need a kernel that keeps to its manual pages say so by a
-- hypothesis: IsPosix for read(2) and write(2), IsDocumented and IsLinux for user and group ids.
-- Nat takes the running of a command as a parameter, as SystemRunner starts programs that are not
-- here. Callbacks are names that the epoller or the poller hands to an `invoke` function, which
-- runs the handler on the whole state. A std::map is an association list. Counters wrap at 2 ^ 32,
-- and size_t and ids at 2 ^ 64.
--
-- Fuel. A write of all bytes has one round more than the buffer has bytes, and each round but the
-- last takes a byte. The search for a free address raises the octet in each of its rounds, of which
-- there are as many as octets up to 256. The decimal printer has 20 digits, enough below 2 ^ 64.
-- The wait for dnsmasq has 20 rounds, and gives up in the twentieth. The other loops ask the kernel
-- once in each round, and run over a list of its answers: the loops of the two ends, of the DNS
-- proxy and of the event loop, the destructor of a child process and the wait for one, and the
-- reads of a response or of a file.
--
-- Not modelled: log output, except where making its text can throw; src/frontend/koho-client.cc,
-- which calls what is here once each, most of it in another process and its network namespace; the
-- child's side of a fork, with its process, its namespaces and its signal mask; how threads of the
-- DNS proxy that run at once share the listening socket; the floating point of src/util/ezio.cc;
-- that the callbacks of a poller may give it new actions while it runs them; and the
-- close of a connection to the DNS proxy that is no TCP socket over IPv4.
pub mod Prelude
pub mod Packet
pub mod FileDescriptor
pub mod ByteStreamQueue
pub mod Text
pub mod Address
pub mod Socket
pub mod Epoller
pub mod Poller
pub mod ChildProcess
pub mod EventLoop
pub mod KohoServer
pub mod Privileges
pub mod Util
pub mod DnsProxy
pub mod Signals
pub mod SocketPair
pub mod SystemRunner
pub mod DnsServer
pub mod TempFile
pub mod Nat
pub mod NetDevice
pub mod Interfaces
pub mod Splitter
pub mod Tests
