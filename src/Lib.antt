-- ===== src/Lib.antt =====
-- A TCP/IP stack as a library: byte streams, reassembly of substrings, 32-bit sequence numbers, the
-- receiver, the sender and the peer of TCP, the network interface with ARP, the router, and the
-- messages of Ethernet, ARP, IPv4 and TCP in bytes; and an event loop over file descriptors, with the
-- copy between a terminal and a socket and the socket over a TCP peer that run on it. Bytes are numbers
-- and a string is a list of them. A machine integer is a native number whose wrap-around is written out;
-- `size_t` has 64 bits.
--
-- The parts, and the files that model them:
--   src/byte_stream.hh, src/byte_stream.cc, src/byte_stream_helpers.cc: ByteStream.antt. A bounded queue
--     of bytes; the views Writer and Reader are functions on one record. `read` loops until it has what
--     it wants or the buffer is empty; its fuel is one round more than there are bytes, since
--     each round takes one at least.
--   src/wrapping_integers.hh, src/wrapping_integers.cc: WrappingIntegers.antt. `Wrap32` with `wrap`,
--     `unwrap`, `plus` for operator+ and `same` for operator==.
--   src/reassembler.hh, src/reassembler.cc: Reassembler.antt. `insert` is the composition of
--     `initialize` (the sizes on the first call), `store_substring` (the two loops), `assemble` (the
--     bytes that are next go to the output) and `finish` (the end). An access outside a container,
--     which C++ leaves undefined, is the result `err out_of_bounds`.
--   util/tcp_sender_message.hh, util/tcp_receiver_message.hh: TcpMessages.antt.
--   src/tcp_receiver.hh, src/tcp_receiver.cc: TcpReceiver.antt. `receive` calls the reassembler's
--     `insert`, which writes to the inbound stream; both are passed in and handed back.
--   src/tcp_sender.hh, src/tcp_sender.cc, util/tcp_config.hh: TcpSender.antt. `push` reads the outbound
--     stream in a loop whose fuel is one round more than there are bytes in it; a round reads one at
--     least. The random first sequence number is an argument of `new`.
--   src/network_interface.hh, src/network_interface.cc: NetworkInterface.antt. Maps are lists of entries
--     with 32-bit ages, queues are lists. How messages become bytes is the parameter `Formats` of
--     Frames.antt, which Frames/Wire.antt fills with the models of the formats. What throws there makes
--     the call throw; the state that such a call leaves behind is not modelled. Frames.antt also has the types of util/ethernet_header.hh, util/ethernet_frame.hh,
--     util/arp_message.hh, util/ipv4_header.hh and util/ipv4_datagram.hh.
--   src/router.hh, src/router.cc: Router.antt. `route` drains the interfaces in turn; the loop over one
--     interface has a round more than it has datagrams, since forwarding adds none to it. `choose` is
--     the loop over the table.
--   util/parser.hh: Parser.antt and Serializer.antt. A `Buffer` is the list of its bytes. The loop of
--     `remove_prefix` has two rounds more than there are buffers, since each round but the last drops
--     one; the fuel of `string`, which no message uses, is an argument, as its loop need not end.
--   util/checksum.hh: Checksum.antt. Two rounds fold a sum of 32 bits, and a third ends the loop.
--   util/ethernet_header.cc, util/ethernet_frame.hh: Frames/Ethernet.antt. util/arp_message.cc:
--     Frames/Arp.antt. util/ipv4_header.cc, util/ipv4_datagram.hh: Frames/Ipv4.antt.
--   util/tcp_segment.hh, util/tcp_segment.cc, util/udinfo.hh: TcpSegment.antt.
--   util/tcp_over_ip.cc, util/fd_adapter.hh, util/tcp_config.hh: TcpOverIp.antt. The adapter's state is
--     passed in and handed back; an address is its number and its port.
--   util/tcp_peer.hh: TcpPeer.antt. One record of the sender, the receiver, the reassembler and the
--     streams; `receive` and `maybe_send` call the operations of these models.
--   util/lossy_fd_adapter.hh: LossyFdAdapter.antt. The adapter below and the random engine are
--     parameters.
--   util/tuntap_adapter.hh, util/tuntap_adapter.cc: TuntapAdapter.antt. What a device gives is an
--     argument and what is written to it is a list; the loop of `send_pending` has a round more than
--     there are frames.
--   util/file_descriptor.hh, util/file_descriptor.cc: FileDescriptor.antt. What a system call returns is
--     an argument; a `FileDescriptor` is the `FDWrapper` that its copies share.
--   util/eventloop.hh, util/eventloop.cc, util/exception.hh: EventLoop.antt. A rule has functions on the
--     state that the callbacks share, and `wait_next_event` returns that state and the rules that are
--     left. The answers of `poll` and `getsockopt` are arguments. The bound of 128 rounds is the source's.
--   util/socket.hh, util/socket.cc: Socket.antt. A socket is its descriptor.
--   apps/bidirectional_stream_copy.cc: StreamCopy.antt. The loop goes over a list of turns,
--     each with what the system calls answer in it, and stops at the end of the list or of the source's
--     loop. `pull` and `pour` are what the reading and the writing rules have in common.
--   util/tcp_minnow_socket.hh, util/tcp_minnow_socket.cc: TcpMinnowSocket.antt, with the rules and the loops
--     in TcpMinnowSocket/Loop.antt. It stands on the models of the peer, the event loop and the stream
--     copy. The fuel of `collect_segments` has a round for each message queued and each byte buffered,
--     and five for a SYN, a FIN, an empty message and the end.
-- Base.antt and the files under it hold what these share: lists over native numbers, machine integers
-- and results with errors. Each component's Tests.antt evaluates it on concrete inputs.
--
-- Not modelled: the text that the `to_string` functions make; the threads of util/tcp_minnow_socket.cc
-- and the end of the one that runs the loop; that a callback adds or cancels a rule, which none does;
-- and what only calls the operating system: addresses, the options of sockets, the TUN and TAP devices,
-- the other applications.

pub mod Base
pub mod ByteStream
pub mod WrappingIntegers
pub mod Reassembler
pub mod TcpMessages
pub mod TcpReceiver
pub mod TcpSender
pub mod Frames
pub mod NetworkInterface
pub mod Router
pub mod Parser
pub mod Serializer
pub mod Checksum
pub mod TcpSegment
pub mod TcpOverIp
pub mod TcpPeer
pub mod LossyFdAdapter
pub mod TuntapAdapter
pub mod FileDescriptor
pub mod EventLoop
pub mod Socket
pub mod StreamCopy
pub mod TcpMinnowSocket
