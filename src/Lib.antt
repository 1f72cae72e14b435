-- ===== src/Lib.antt =====
-- The programs of this repository that have logic of their own, modelled over lists of bytes and
-- native numbers. Each is a program by itself; they share the Internet checksum and <string.h>.
--
-- The parts, the files that model them, and the code:
--   * Base: names the modules share, lists and words over native numbers, the integers of Base/Int;
--   * Cstring: strlen, strcmp and strncpy of the C library, as far as the programs call them;
--   * Decimal: `%d` of sprintf and sscanf, which NetlinkRoute, KernelPing and Shadow use;
--   * Checksum: checksum of raw_socket/utils.c, and its copies in ping/main.c and traceroute/main.c;
--   * Echo: the loops of ping/main.c and traceroute/main.c and the request that both send;
--   * Sniffer: check_sum and callback of sniffer/main.c; Capture is its main and print_devices;
--   * Proxy: core/netfilter/proxy_server, a cache of DNS answers in the kernel. Proxy/Cache is its
--     tree (search, insert), Proxy/Packet the packets, Proxy/Hooks the two hooks that fill the cache
--     from answers and answer queries from it (hook_in_packets, hook_out_packets, create_packet);
--   * PortBlock: m_filter_port of core/netfilter/port_block/kernel_module.c;
--   * IoctlDev: the device of core/ioctldev/ioctl_dev.c and the byte loop of core/ioctldev/main.c;
--   * Procfs: the handlers of core/procdev/procfs.c;
--   * UdpServer: udp_client_server/main.c; the client and main are in UdpServer/Client;
--   * TextManager: text_manager. Files is print_files.c, Navigate is navigate.c, which calls it after
--     each key, with Navigate/Loop for where the keys go, Copy is the loop of copy.c and the dialogue
--     of ui.c, Progress `copy` and its two threads as a relation of steps, Status the line that one of them draws, Dialogue the place of
--     the dialogue, Redraw the listing of both panels behind it, Start main.c, which opens the panels and calls navigate;
--   * SelectServer, PollServer, EpollServer: the loop of select_poll_epoll/main.c as it is built for
--     select and pselect, for poll and ppoll, and for epoll; they share what the kernel answers;
--   * RawSocket: the headers of raw_socket/socket.c and the sender of raw_socket/main.c;
--   * Setup: what the programs on sockets do before their loops. Groups is broadcast_multicast/main.c,
--     Streams is sctp/main.c, udp_tcp_client_server/main.c and select_poll_epoll/main.c; Checked is
--     about calls that are tested, Failures and Meeting about all of the programs;
--   * Options: the command lines of ping/main.c, traceroute/main.c and raw_socket/main.c;
--   * Messages: what the loops with one array of 256 bytes do. UdpTcp is udp_tcp_client_server/main.c,
--     Sctp is sctp/main.c and the receiver of raw_socket/main.c, Broadcast is
--     broadcast_multicast/main.c;
--   * NetlinkRoute: core/netlinkdev/netlink_rt/netlink_recv.c, the reply to a request for the routes;
--   * KernelPing: core/netfilter/ping, the request it sends and its own inet_addr;
--   * NetlinkKernel: core/netlinkdev/netlink_kernel, the module and the program that talk to each other;
--   * Shadow: core/shadow, the handler in the kernel and the program that writes to it; Shadow/Listing
--     is what that does behind its wait for a signal;
--   * Pipe, Daemon: pipe/main.c and daemon/main.c;
--   * Examples: concrete runs.
--
-- A function that the source calls `f` is called `f` here; statics and globals of a program are the
-- fields of one record that is passed in and handed back. Memory is a list of bytes, and an access
-- outside it, like a NULL pointer followed, is the result `none`. Hosts are little-endian, and a field
-- in network order is kept as the host reads it, so that htons and ntohs are the swap `htons`.
-- Threads and the kernel's answers are lists of events, in any order; the threads of copy.c are a
-- relation of steps, each up to the next access to what they share.
--
-- Functions of the kernel and of the file system are parameters: rb_insert_color, which keeps the
-- nodes of a tree in their order; skb_copy_expand, which copies a packet and gives it room;
-- ip_local_out; ip_compute_csum, which is the Internet checksum; dev_get_by_name; if_indextoname;
-- strncpy_from_user; nlmsg_put; readdir and chdir, and what the pointers of readdir read as once
-- closedir has freed what they point to, which is when the code reads them; the calls of libpcap; newwin and
-- derwin; atoi and inet_addr of
-- the command lines. The quotient of doubles that copy.c takes for its progress is one
-- too, and so is what storage holds before it is written.
--
-- Loops are structural recursion over the bytes, the keys, the turns or the events. These have fuel:
-- the round of the select loop, one unit for each descriptor up to the greatest and one more; the
-- round of the poll loop, one for each of the 1024 entries and one more; the copy loop of copy.c,
-- which takes one unit for each byte of the file and one more, while each round consumes 1024 bytes;
-- the two loops over a netlink reply, one for each byte that is left and one more, while each message
-- and attribute has four bytes or more; the digits of a number, of which an int has ten at most; and
-- the byte loop of core/ioctldev/main.c, whose fuel is the caller's.
--
-- Not modelled: opening and closing files, drawing and printing where it has no state, times, and
-- the sockets of ping, traceroute, raw_socket and the kernel modules. chat_tcp
-- uses names that it does not declare and does not compile.
pub mod Daemon
pub mod Pipe
pub mod Options
pub mod Setup
pub mod NetlinkKernel
pub mod Base
pub mod Cstring
pub mod Proxy
pub mod Checksum
pub mod Sniffer
pub mod TextManager
pub mod PortBlock
pub mod IoctlDev
pub mod UdpServer
pub mod Echo
pub mod Procfs
pub mod SelectServer
pub mod Decimal
pub mod NetlinkRoute
pub mod KernelPing
pub mod Shadow
pub mod EpollServer
pub mod Messages
pub mod PollServer
pub mod RawSocket
pub mod Examples
