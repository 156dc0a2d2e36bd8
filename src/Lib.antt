-- ===== src/Lib.antt =====
-- A model of compile_service, a small HTTP file server in C with a message protocol of its own, and
-- the theorems about it.
--
-- The program. `main.c` reads commands and starts or pauses the server: a thread accepts clients, and
-- one thread for each client answers its request. `tcp_server.c` and `tcp_client.c` wrap stream
-- sockets, `udp_point.c` datagram sockets; `msg_parser.c` cuts the bytes of a socket into the
-- messages of `message.c`. `response.c` answers a request with the file or the directory that it
-- names, as HTML which `page.c` prints. `utility.c` splits command lines. `basic_material/` holds
-- exercises, among them two servers behind `select`, and two earlier versions of the parser.
--
-- The files.
-- - Common: lists over native numbers, bytes in memory, and `Outcome`, what running C code gives:
--   `ok`, `fault` for an access outside an object, or `stuck` when the rounds that a loop is allowed
--   are used up.
-- - Message (`message.h`, `message.c`): Header and Message, the two byte orders, Message_New,
--   Message_Size, Message_H2N, Message_N2H. Message.Wire has the bytes of a header on the network.
-- - Reader, Sender: the interfaces of `read(2)` and `send(2)` on one descriptor, parameters with the
--   laws that the code relies on.
-- - MsgParser (`msg_parser.c`): the parser's state and MParser_ReadMem; MsgParser.Receive has ToRecv,
--   MsgParser.Descriptor MParser_ReadFd. MsgParser.Spec says what the parser promises: `assemble`, one
--   frame out of the bytes that have come; Progress, Body, Memory and Descriptor.Refines show that the
--   code does that, Stream that a stream in any pieces gives its messages, Hostile what headers with a
--   length of 2 ^ 31 and more do.
-- - TcpClient (`tcp_client.c`): the client and its operations; TcpClient.Messages what goes out,
--   TcpClient.RoundTrip what arrives on the other side.
-- - UdpPoint (`udp_point.c`): the datagram socket; UdpPoint.Exchange a message in a datagram.
-- - TcpServer (`tcp_server.c`): the server and SelectHandler; TcpServer.Watched and TcpServer.Work the
--   bound on what `select` watches, TcpServer.Swept what becomes of the clients and what the listener
--   hears, TcpServer.Failing a failed `accept`.
-- - Text: C strings as lists of bytes, `sprintf`, and strings in blocks and arrays.
-- - Page (`page.c`, `page.h`), Utility (`utility.c`).
-- - Response (`response.c`): SortFileEntry; Response.Paths has GetAbsPath and IsDotPath,
--   Response.Entries GetEntryCount, MakeEntryItem and GetEntry (its child Shown says what a row
--   shows), Response.Html MakeHTML, Response.Send the handlers and RequestHandler. In Response.Html,
--   Whole has the page of a directory and Up its row back; in Response.Send, Delivery, Requests,
--   Success and Directory say what is sent.
-- - Main (`main.c`): the commands and the status, the handlers cut where they access `g_status` or
--   make a thread. Main.Threads has the steps of the threads in any order, its children Places and
--   Single how many server threads there are, Main.Paused what a pause does, Main.Requests DoResp and
--   Process_Thread, Main.Requests.Served what a client gets for its request.
-- - Earlier (`basic_material/message/msg_parser.c`, whose MParser_ReadMem
--   `basic_material/message1/msg_parser.c` keeps): the first parser. Earlier.Same compares it with the
--   present one, Earlier.Lost has the pieces that it does not put together, Earlier.Clients
--   (`basic_material/message1/server.c`) the server that keeps one parser for all clients.
-- - Heap: the live blocks, and `free`. Ownership: what parsers, clients, datagram sockets and servers
--   allocate and free (MParser_Del, TcpClient_Del, UdpPoint_Del, TcpServer_Del, and the operations
--   that make them), on records of addresses. Utility.Grid has Malloc2d and Free2d.
-- - Echo (`basic_material/select-server.c`), Echo.Oob (`basic_material/oobs/select-server.c`): servers
--   behind `select`; Echo.Watching says what they watch, Echo.Lines what is sent back. Echo.Single
--   (`basic_material/server.c`), Echo.Datagrams (`basic_material/udp_server.c`, `mul_rx.c`) and
--   Echo.Keyboard (`basic_material/select.c`) have the smaller loops.
-- - Samples has systems for the tests, which stand in modules called Tests.
--
-- How C becomes definitions. A function that may be handed NULL takes an Option. A call of `malloc`
-- is a parameter, from the size to the block or none. A write or read outside an object is `fault`.
-- An `int` that the code mixes with unsigned numbers is its bit pattern, a number below 2 ^ 32, with
-- the wrap-around written out. C strings are lists of bytes without the end. `free` stands in Heap
-- and Ownership, and for the client that a thread goes on to use in Main.Requests; the other models
-- hold values in place of addresses.
--
-- Bounds and rounds. ToRecv's loop, the loop that sends a file, and Process_Thread run on a number of
-- rounds. ToRecv has all that it can need. The file's loop needs one for each byte of the file and one
-- more, which the theorem about RequestHandler takes as its condition. Process_Thread need not end.
-- DoWork and the echo servers run on a list of what `select` and `accept` answer in their rounds, of
-- any length; the echo servers' loop over the descriptors has a round for each bit of the sets.
--
-- Not modelled: what a listener does to its server, what is printed on the terminal, the other
-- exercises in `basic_material/`, each a main() that calls the socket interface in a fixed order, and
-- what the system does behind `accept`, `select`, `stat` and the rest, which are parameters.
pub mod Common
pub mod Message
pub mod Reader
pub mod Sender
pub mod MsgParser
pub mod Utility
pub mod Text
pub mod Page
pub mod TcpClient
pub mod UdpPoint
pub mod TcpServer
pub mod Response
pub mod Main
pub mod Samples
pub mod Earlier
pub mod Heap
pub mod Ownership
pub mod Echo
