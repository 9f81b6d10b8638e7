-- ===== src/Lib.antt =====
-- MTRpc, an RPC framework over HTTP headers and protobuf bodies with an epoll event loop.
--
-- The parts, from the socket upwards. An I/O buffer (mio/mio_buffer) is a ring of sixteen pieces of
-- memory, into which a stream receives and out of which it sends. The HTTP header classes
-- (http/rpc_http_header) parse a header out of a read buffer byte by byte, and write one into a
-- write buffer. A stream (mio/mio_socket_stream) moves bytes between the socket and its buffers; a
-- server's and a client's stream take packets out of them and hand them to closures. An event
-- (mio/mio_event) is a descriptor in the epoll set of a poller (mio/mio_poller), which also has the
-- times at which it is to be told of a time-out; its handler runs in a work group (thread/workpool),
-- one run at a time. A channel (rpc/rpc_channel_impl) sends calls through a stream and hands their
-- responses back. A server finds its services in a pool (rpc/rpc_service_pool), which also keeps the
-- statistics of their methods; a connection (rpc/rpc_server_connect) has a queue of responses.
-- A timer (mio/mio_timer) runs tasks at their times.
--
--   Base      names of the library, Boolean tests, lists over the native numbers, integers
--   Text      what the code uses of the C and C++ library: strtol, strtoull, "%lu", std::map
--   Ring      mio/mio_buffer.h, `BufferPieces` and `IOBuffer::Iterator`: `operator -` is
--             `difference`, `+=` is `advance`, `-=` is `retreat`, `++` is `increment`
--   Buffer    mio/mio_buffer.h and mio_buffer.cpp, `IOBuffer`, `ReadBuffer` and `WriteBuffer`; a
--             method has its own name in small letters
--   Error     mio/mio_error_code.h and .cpp
--   Http      http/rpc_http_header.h and .cpp: the shared header, `HttpRequestHeader` (Request) and
--             `HttpReponseHeader` (Response), whose `ParserHeader` is `parser_header` and
--             `parser_response`; Serialize and Written are about `SerializeHeader`. Runs, Token and
--             Lines follow the parsers through bytes, texts and lines; ReadBack and ResponseBack have
--             the parser read what was written
--   Event     mio/mio_event.h and .cpp, and EventToMask of mio/mio_poller.cpp: Epoll and Names are
--             the sets of events, Schedule is OnEventAsync and OnEventWrapper as a step relation
--             over what every thread is doing
--   Timer     mio/mio_timer.h and .cpp: the times of the tasks and their order; `runTimerAt` has its
--             adjustment of the start in `adjust_start`; Queue is the queue of the tasks, with `call_all`
--             for the loop of `onTimer`, in which a callback can start and stop tasks
--   SocketStream  mio/mio_socket_stream.h and .cpp: what a stream does with its events; Closing is
--             about OnClose, Transfer about the bytes that OnReadable and OnWriteable count
--   MessageStream, ConnectStream  mio/mio_message_stream and mio/mio_connect_stream: the streams of a
--             server and of a client, which share the loop of SocketStream/Rounds; Client has the
--             closures that the channel and the connection set. Framing has the parsers
--             read what was written, as the streams call them. A result that a method does not give is
--             `stopped`, with the reason and the stream as it is then
--   WorkGroup  thread/workpool.h and .cpp: the loop of the workers and Post, as steps of threads;
--             Tasks and Handing are about what becomes of a task, Lost about what goes wrong
--   Poller    mio/mio_poller.h and .cpp: the time-outs; Calls is about those that set and delete them,
--             Fired and Wait about ProcessTimeOut
--   SpinList  common/spinlist.h: the linked list with its nodes on a heap; Segment is about stretches of
--             nodes, Queue about each operation, Fifo about their calls in any order
--   Waiter    the Wait of rpc/rpc_controller_impl.cpp, thread/workpool.h and mio/mio_connect_stream.cpp,
--             as steps of two threads
--   Server    rpc/rpc_server_impl.cpp: how a server finds the method of a request by its name
--   Statistics  common/serverstat.h and .cpp: the counters and the values by name; the floats of the
--             latter are a parameter
--   Packet    the writing of a packet into a write buffer, which SendToServer and SendMessage share;
--             Header and Whole are about the bytes that stand there
--   Channel   rpc/rpc_channel_impl.h and .cpp: the queues of calls of a client. A handler has its
--             own name in small letters; those that send or receive are in Channel/Send, with the
--             protobuf messages as parameters; Arrives has a server's connection take the request
--   Service   rpc/rpc_service_pool.h: Stats is `MethodBoard`, Pool is `ServiceBoard` and `ServicePool`
--   Connect   rpc/rpc_server_connect.h and .cpp: the queue of responses of a connection, with the
--             services and the protobuf messages as parameters; Closures has its handlers as the
--             closures of its stream, Swallowed requests that come together
--   Tests     runs at concrete inputs
--
-- Numbers are natural numbers with the wrap-around of the machine's types written out where the
-- code can reach it; positions and sizes of the ring are small and stay below 2^31. The loops of
-- the iterators have as fuel the distance that they go; a parser's loop has the number of bytes of
-- the ring, which is more than it can hold unread; the loop of the channel's `OnMessageSended` has
-- the sizes of the packets and the number of calls; that of `onTimer` has what Timer/Due shows to be
-- enough, for callbacks that start no task in the past; that of the time-outs has the size of the tree. An access outside of the 256-byte key buffer,
-- which C++ does not define, is `none`, or the outcome `fault` of a step.
--
-- Not modelled: system calls, logging, the start of threads and the closures; the copies of
-- jsoncpp, of Boost and of nginx's tree; generated code. Nor are: the poller's loop, the setting of
-- the kernel's timer, the set-up of servers and clients, the waits with a time, `SerializeBody`, `toString`.
pub mod Base
pub mod Ring
pub mod Buffer
pub mod Text
pub mod Error
pub mod Http
pub mod Event
pub mod Timer
pub mod Poller
pub mod SocketStream
pub mod MessageStream
pub mod ConnectStream
pub mod SpinList
pub mod Waiter
pub mod WorkGroup
pub mod Packet
pub mod Channel
pub mod Service
pub mod Connect
pub mod Server
pub mod Statistics
pub mod Tests
