-- ===== src/Lib.antt =====
-- A verification library for the C++ code blocks: the player of the game 2048 in ai/2048, the
-- reliable datagram transport in kcp, the request that opens a tunnel of tcprelay, and the
-- strings of common.
--
-- The parts of the program, and how they interact. `AI2048` (ai/2048/ai_2048.cc, ai_utils.h) is a
-- board with its moves, an evaluation and an alpha-beta search that chooses the next move. In
-- kcp, a `KCPClient` and a `KCPServer` agree on the identifier of a session by a handshake of
-- datagrams (SYN, SYN, ACK), keep the session by PING and PONG, end it by RST, and hand DATA
-- packets to the session; kcp_packets.cc writes and reads the header that every datagram begins
-- with, and `UDPSocket` makes the calls of the operating system. In tcprelay, `ServerConnMeta`
-- parses what a client of the relay asks for, and `Tunnel` carries the bytes between the client
-- and that host. In ai/2048, a client (client.cc) has a game, and a server (server.cc) an `AI2048`
-- for each connection that chooses the client's moves.
--
-- Game models ai/2048. Game/Utils has the table `dir_pos`, `lg2` and `ArrayMax`; Game/Board the
-- tiles, a function from the sixteen positions to the base-2 logarithms that the program stores,
-- and the operations on them; Game/Move is `TryMove`, its double loop a list of positions;
-- Game/Eval the four values of `EvalAll` and `GetCandidateSet`; Game/Search is `MiniMaxSearch`
-- and `GetPlayerBestMove`. Game/Geometry, Game/Moves, Game/Score, Game/Logs, Game/Grids,
-- Game/Candidates and the modules below Game/Search prove. The scores, a `double` in the program,
-- are a parameter: an order with the laws of `<`, the weighted sum of `EvalAll`, and the two
-- bounds -INF and INF. `Mark` has fuel 17, one more than there are cells it can mark; the walks
-- over a line have as much fuel as a line has cells; the deepening of `GetPlayerBestMove` has as
-- its fuel the number of rounds that the clock allows.
--
-- Game/Match models the callbacks of ai/2048/server.cc and ai/2048/client.cc that play a match, and
-- Game/Hosting the games of all connections; Game/Legal, Game/Synced and Game/Round prove.
--
-- Packet models kcp/kcp_packets.{h,cc}. Packet/Defs has the header, the cursor of
-- `KCPReceivedPacket` with its subtraction modulo 2^64, and the reading and writing of headers;
-- Packet/Bytes the integers in little-endian order; Packet/Names the names of the log;
-- Packet/Control the packets that are a header alone. zlib's `adler32` is a parameter.
--
-- Server models kcp/kcp_server.{h,cc}. Server/Defs has the four maps, association lists whose
-- order stands for the order of iteration, and the handlers; Server/Loop `ProcessPacket`, the
-- messages of one read and `RunPeriodicTask`; Server/Batches is the loop of `HandleRead`, over
-- `recvmmsg`, with one turn of fuel more than there are datagrams, since each turn that goes on
-- has taken one; Server/TxQueue `AppendPacket` and `FlushTxQueue`;
-- Server/Listen `Listen` as far as its socket, over Socket; Server/Errors `HandleError` and the
-- destructor, whose loop has as fuel its own bound of tries. What a handler sends or asks of a
-- session is appended to a list of effects. The clock, `RandBytes` and `KCPSession::Initialize`
-- are the fields of an environment. The assertions on what a datagram holds are modelled with a
-- flag that says whether they are compiled in.
--
-- Client models kcp/kcp_client.{h,cc}. Client/Defs has the state and the handlers, with the
-- assertions on the client's own state and the use of a null socket as failures; Client/Events
-- the calls from outside: `Connect`, the datagrams, the timers and `Disconnect`; Client/Errors
-- `HandleError`, with the user's callback on errors as a parameter. The timers of
-- the loop that a reconnect registers are part of the state, and those of the periodic task that a
-- second `Connect` loses; the channel is not.
--
-- Session models kcp/kcp_session.{h,cc}: Session/Defs has `WriteInLoopThread`,
-- `UpdateConnectionState` and `Close`, Session/Reading `ProcessPacketInLoopThread` and
-- `OnReadEvent`, Session/Start `Initialize` and `CurrentMs`, Session/Threads the calls of several
-- threads, with the queue and the timers of the loop. The library ikcp is a parameter with
-- the operations that these use, and the laws that a theorem asks of it are in Session/Writes and
-- Session/View; that ikcp takes a message is one of them only up to a largest size, 127 segments
-- outside its stream mode, since `ikcp_send` refuses more although its window may report more. The user's message callback is a parameter too: it may retrieve from the input
-- buffer and close the session. The loop that reads has fuel, and more than the number of
-- messages that ikcp can give out is enough.
--
-- Socket models kcp/udp_socket.{h,cc}. Socket/Io has the state, the calls of the operating
-- system, whose answers are a parameter that may depend on all calls before, and the macros
-- `ERROR_RETURN` (kcp/log_util.h) and `HANDLE_EINTR` (common/macros.h) with its bound of 100;
-- Socket/Address `SockaddrStorage`; Socket/Setup, Socket/Multicast and Socket/Transfer the
-- methods; Socket/Methods a socket from its constructor to its destructor. An assertion that
-- fails ends a method without a result. Socket/Random is `RandBytes` of kcp/urandom.h; its fuel is
-- one more than the bytes to read, since each call that goes on has read one. Socket/Tidy, Socket/Opening, Socket/Settings,
-- Socket/Using, Socket/Retries, Socket/Outcomes and Socket/Endings prove.
--
-- Relay models tcprelay: Relay/Request is the parser of tunnel.h, over the buffers of muduo,
-- which are a parameter with laws; Relay/Grammar has the grammar of requests. The loop has as
-- fuel the number of readable bytes and 3, since each turn but two takes a byte. Relay/Messages
-- is `onServerMessage` of tcprelay/tcprelay.cc, over the cipher and the resolver, and
-- Relay/Segments follows a request that comes in several messages. Relay/Tunnels is `Tunnel`,
-- `resolveCallback` and `onServerConnection`; the one meta object that the list and the tunnel
-- share is in one place of the state. Relay/Streams, Relay/Events and Relay/Carried follow the
-- bytes of a tunnel, and Relay/Whole a connection from the first byte of its request.
--
-- Wire models the output callbacks of kcp/kcp_server.cc and kcp/kcp_client.cc, Wire/Output: the
-- data of a session gets its header there, and goes to the queue or to the socket. Wire/Delivered
-- follows it into the handlers of the other side.
--
-- Strings models common/string_utils.h: `WriteInto`, `Join` and `Split` in Strings/Defs, `Trim`,
-- `HexDump` and `GenRandString` in Strings/Editing; the sums
-- of lengths are taken to fit an `int`, and `>>` of a stream to end a word at the spaces of the
-- classic locale. Strings/Joining, Strings/Splitting, Strings/Trimming and Strings/Hex prove.
--
-- Prelude has the Boolean tests, integers, loops and maps that the parts share. Tests has
-- concrete boards, packets, servers, clients, sockets and requests.
--
-- Not modelled: the `HANDLE_EINTR` of a build without assertions, which has no bound; the callbacks
-- of the user, which could call back into the client, the server or the session, but for those
-- that are parameters; `Initialize` and `InitializeThread` of the server, which set pointers and
-- lengths in the arrays of `sendmmsg` and `recvmmsg`, and the threads and channels that `Listen` and
-- `Connect` start; the copies of other projects (kcp/ikcp.c, ai/2048/codec.cc, tcprelay/resolver.cc,
-- common/debug) and the code in tcprelay/encryptor_openssl.cc that hands its arguments to OpenSSL;
-- the generated code in ai/2048/gens, and the examples.
pub mod Prelude
pub mod Game
pub mod Packet
pub mod Server
pub mod Client
pub mod Session
pub mod Socket
pub mod Relay
pub mod Wire
pub mod Strings
pub mod Tests
