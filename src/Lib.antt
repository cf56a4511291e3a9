-- ===== src/Lib.antt =====
-- UIConnect: the core of its C++ server library, server/library.
--
-- The server is a reactor. An EventLoop polls an Epoll for the TcpChannels that are ready, calls
-- their callbacks, runs the tasks that other threads queued, and then the timers that are due. A
-- TcpConnection is such a callback: it moves bytes between its socket and two Buffers, which are
-- ByteArrays, and cuts the bytes read into Packets. All paths below are in server/library.
--
-- The files, each with the code that it models:
--   Base       the conditional and tests on numbers, lists over the native numbers, and Outcome:
--              what a C++ call ends in, a value, a thrown exception or undefined behaviour. Text
--              has the texts that the code spells out, and decimal numbers; Assoc is a map of texts.
--   ByteArray  ByteArray.h, ByteArray.cpp and Endian.h. The chain of blocks is a list of nodes and
--              a pointer into it an index. Write, Read, Moves and Iov hold the operations on
--              bytes, Codec those on integers and strings. Flat is the chain as one run of bytes.
--              Sound holds the invariant and what the operations do where it holds.
--   Packet     network/socket/Packet.h and Packet.cpp. Frame is about what a packet is built into.
--   Buffer     network/socket/Buffer.cpp. Queue is the view of a buffer as the queue of its unread
--              bytes, Pointer where the block pointers stand, Numbers integers through a buffer,
--              Search the search for a packet's head, Packets what getPack takes out, and Cleared what
--              is left by clear.
--   Timer      TimerFunc.h and TimerFunc.cpp. Order is the comparator and the sorted set, Valid the
--              manager's invariant, Cut, Expiry and Calls what is handed out.
--   Net        Epoll is network/epoll/Epoll.cpp and Channel is network/TcpChannel.cpp, with
--              EventLoop::updateChannel of network/event/EventLoop.cpp. Channel/Registered is
--              about both. Socket is send and recv of network/socket/TcpSocket.cpp, Listener its
--              other methods, Connection is
--              network/TcpConnection.cpp, with Connection/Closing on its states and
--              Connection/Lifecycle on its handlers in any order, and Loop is
--              network/event/EventLoop.cpp, with Loop/Ends on its tasks and its end.
--   Http       protocol/http/HttpRequest.h and HttpRequest.cpp. The maps are in Http with their laws
--              in Fields, the request is in Request, and Access is about its methods. Response
--              is protocol/http/HttpResponse.cpp, Dispatcher is reactor/HttpDispatcher.cpp, and
--              Routes is about where it sends a path. Names is protocol/http/Http.cpp, Parser the
--              callbacks of HttpRequestParser.cpp and HttpResponseParser.cpp, with Parser/Events on
--              their errors, Dump what a request or a response is written as, and Connection
--              HttpConnection.cpp: Rounds and Ends are about whether its loop ends, Ahead and
--              Pipeline about what it hands out.
--   Config     config/Config.h, Config.cpp and ConfigItem.hpp. Registry is about items and their
--              listeners, Paths and Loading about documents, and Files is LoadFromConfDir. Convert is
--              config/ItemConverter.hpp with the converters of log/LogConfItem.h: RoundTrip and
--              LogItems are about what comes back.
--   Log        log/LogLevel.cpp. Pattern and Formatter are log/LogFormatter.cpp: Pattern/Printed is
--              about patterns written from their parts, Formatter/Rendered about what they format.
--              Outputter is log/LogOutputter.cpp with log/outputter, Logger is log/Logger.cpp, with
--              Ready and Logged on its formatters, and Manager is log/LoggerManager.cpp with the
--              listener of log/LogConfItem.h, whose effect is in Manager/Configured.
--   Server     what network/TcpServer.cpp and protocol/http/HttpServer.cpp do with accepted sockets,
--              with EventThreadPool::getNextLoop. Balance is about how sessions are spread.
--              Sessions is network/TcpSession.cpp and protocol/http/HttpSession.cpp, with Rate on their
--              control of time and rate, Requests on what they answer, and Messages with what TcpSession
--              and reactor/EchoProcessor.cpp make of packets, which Echo is about.
--              Startup is how a server of network/TcpServer.cpp starts and ends, with Ends on that.
--   Threads    thread/Thread.cpp and network/event/EventThread.cpp. Waiting is quit against entry, step
--              by step, with Waited and Lost on when quit returns; Pool is thread/ThreadPool.hpp, with
--              Quitting and Lookup on its threads.
--   Mutex      the guards and CASLock of Mutex.h: Guards and Exclusion are about them.
--   Hook       hook/FDManager.cpp, hook/FDItem.cpp and hook/Hook.cpp. Table is about the table of
--              descriptors, Flags about what do_io makes of one. Calls has the hooked calls as wholes:
--              Open and Kept are about the table under them, Looping about the loop of do_io, and
--              Connecting and Sleeping about connect and sleep.
--   Tests      the theorems at concrete inputs.
--
-- A method is a function from the object before to its result and the object after, with the name
-- of the method in snake case. What the code takes from outside is an argument: the clock, the
-- answers of the system calls, what fresh memory holds, the byte order of the host's headers, and
-- what the tasks and callbacks of the program do to an event loop. A connection's callbacks are
-- recorded as calls; what they do to the connection is not followed. A loop that ends by what the
-- kernel answers runs on the list of answers, and gives none where they do not end it.
--
-- The host is a 64-bit Linux machine with the low byte first. Integers are their bit patterns,
-- with the wrap-around written out where the code may reach it. Positions and sizes of a
-- ByteArray are plain numbers, since no operation lets them pass one another; sizes are below 2
-- ^ 50, where the double in addCapacityIfNotEnough is exact. The loop of hasRead and hasWritten
-- runs on fuel size + 1, which is enough for blocks that are not empty; the search for a
-- packet's head runs on the unread size + 2, since it moves on by two bytes and stops behind the
-- write position; the packets of one onRead, and the rounds of an HTTP connection's, run on the
-- unread size + 1, since each takes a byte. A log pattern is gone through in as many rounds as
-- it has characters, since each takes one. The loop of do_io runs on two tests, since it
-- ends at the second at the latest.
-- FDManager::get of a socket calls itself through the hooked fcntl, on an argument that says how
-- often the stack has room for that; of the hooked calls a fault also stands for one that does not
-- return, since the stack is used up or its coroutine is held for good.
--
-- Not modelled: locks elsewhere than in Threads and Mutex (a method under a lock is one step), what
-- the root logger makes of the error of a file outputter whose file does not open, the
-- scheduler that resumes the coroutines of hooked system calls, which is not in the repository,
-- lexical_cast, and the vendored projects in server/external and server/lib.
pub mod Base
pub mod ByteArray
pub mod Packet
pub mod Buffer
pub mod Timer
pub mod Net
pub mod Config
pub mod Hook
pub mod Http
pub mod Log
pub mod Mutex
pub mod Server
pub mod Tests
pub mod Threads
