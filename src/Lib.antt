-- ===== src/Lib.antt =====
-- EasyGameServer, a game server over TCP with two clients: what its parts do, and what holds of
-- them.
--
-- The server (EasyServer/EasyServer) runs three threads. The main thread accepts sockets and hands
-- them over through a bounded queue. The client thread owns all sessions: it completes receives and
-- sends, parses packets out of each session's receive buffer, dispatches them to handlers, runs
-- timed tasks and polls for the results of database jobs. The database thread takes jobs from a
-- queue of requests, executes them and puts them into a queue of results.
--
-- * CircularBuffer models EasyServer/EasyServer/CircularBuffer.h and CircularBuffer.cpp, the byte
--   buffer of every session in two regions of one block. A method is the function of its name in
--   snake case; pointers into the block are distances from its start. `Invariant` has the
--   representation invariant, `Fifo` the byte queue that is promised, `Reading`, `Removing`,
--   `Writing` and `Sending` the operations against it, and `Stream` any sequence of uses.
-- * ProducerConsumerQueue models EasyServer/EasyServer/ProducerConsumerQueue.h. `produce` and
--   `consume` are one attempt under the lock; `Refine` compares them with the bounded queue of
--   `Fifo`, and `Waking` is a step function over every interleaving of one producer and one consumer
--   with the condition variables' sleeping and waking.
-- * DatabaseJobManager models EasyServer/EasyServer/DatabaseJobManager.h and DatabaseJobManager.cpp
--   as the steps of the client thread and the database thread on the two queues. A job is any type
--   with its `OnExecute`, as in the source. `Order` and `Deadlock` say what the interleavings do.
-- * PacketType models PacketType.h: the packed structs, their constructors and their bytes in
--   memory, low byte first. `Words` has the numbers in bytes, `RoundTrip` what the bytes keep.
-- * DatabaseJobContext models the structs and constructors of
--   EasyServer/EasyServer/DatabaseJobContext.h.
-- * ClientSession models EasyServer/EasyServer/ClientSession.h, ClientSession.cpp and
--   RefCountable.h: a method takes the session and returns what it leaves. A call of Winsock that
--   may fail is answered by a function of the number of the call; calls on other parts of the server
--   are a list of effects.
-- * PacketHandling models EasyServer/EasyServer/PacketHandling.cpp: the completion routines, the
--   loop of `OnRead`, the handlers and their table. `Framing` says what the loop does with whole
--   requests, `Receiving` what a receive does from start to end, `Hanging` and `Chat` what some
--   packets do, and `References` what the reference count of a session counts.
-- * ClientManager models EasyServer/EasyServer/ClientManager.h and ClientManager.cpp over the
--   sessions in memory, which `Heap` keeps by address; `Broadcast`, `Collecting`, `Flushing` and
--   `Dispatching` say what the loops over the client list and over the database's results do, and
--   `Invariant`, `Creating`, `Erasing`, `Delivering`, `Handling`, `Acting` and `History` what holds
--   after any calls of the manager and acts of the sessions.
-- * DbHelper models EasyServer/EasyServer/DbHelper.h and DbHelper.cpp over sqlite3, whose calls are
--   a record of functions, `Sqlite`; `Laws` states what of sqlite3's documentation the server relies
--   on. `DatabaseJobContext.OnExecute` models DatabaseJobContext.cpp and SQLStatement.h on top of
--   it.
-- * Scheduler models EasyServer/EasyServer/Scheduler.h and Scheduler.cpp. A task is any type with
--   what it does and what it puts off.
-- * ObjectPool models EasyServer/EasyServer/ObjectPool.h over addresses and the pointers stored at
--   them; the blocks that `new` gives are parameters.
-- * ClientThread models the loops of EasyServer/EasyServer/EasyServer.cpp: accepting, the client
--   thread's turns until it sleeps, and its timer, over the parts above. `Connecting` is for one
--   accepted socket, `Accepting` for all of them.
-- * Startup models how the main thread of EasyServer/EasyServer/EasyServer.cpp comes to its accept
--   loop, and that loop; `Stalling` is for when nothing takes the sockets out of the queue.
-- * CrashDump models EasyServer/EasyServer/Exception.cpp, as what it asks the system for.
-- * ClientBuffer models the game client's own copy of the buffer,
--   Cocos2dxGameClient/Classes/CircularBuffer.h and CircularBuffer.cpp; `Equivalence` compares it
--   with the server's.
-- * TcpClient models Cocos2dxGameClient/Classes/TcpClient.h and TcpClient.cpp: `Sending` and
--   `Requests` what goes to the server, `Receiving`, `Ending`, `Pieces` and `Network` what comes
--   from it, `Starting` how it begins, and `Conversation` follows its requests into the server. What
--   the scene is told is a list of calls. Its `assert`s look at their conditions only in a Debug
--   build: the functions for what comes take the kind of the build as an argument.
-- * HelloWorld models Cocos2dxGameClient/Classes/HelloWorldScene.h and HelloWorldScene.cpp: where
--   the scene shows the player and the peers, and what its keys ask for, with the client that the
--   first of them makes (`Pressing`, `Keys`, `Starting`).
-- * DummyClient models DummyClient/DummyClient/ClientSession.h, ClientSession.cpp and
--   ClientManager.cpp, the clients of the load test: `Reading` and `Extent` what comes, `Ticking`
--   what is sent on a timer. `Options` and `CommandLine` are its DummyClient.cpp.
-- * Journey follows a move from a client's request through the server into the scene of another
--   client, `Journey.Chat` a chat in the same way, and `Journey.Login` a login through the database
--   and back to its client; `Journey.Passing` is what they share of the broadcast.
--
-- The parts meet where they do in the source: PacketHandling calls ClientSession, whose effects name
-- the calls of ClientManager, Scheduler and DatabaseJobManager; ClientManager goes through sessions
-- in memory; and both ends of a connection use the structs of PacketType on the same kind of buffer.
--
-- The assertions of the server are those of a build in which they look at their conditions; the ones
-- on the thread-local `LThreadType` are left out, as each operation is modelled for the one thread
-- that calls it.
--
-- The loop of `OnRead` runs on fuel, one unit for a round; one more than the requests in the receive
-- buffer is enough. A packet can keep the loop from ending: then no fuel is enough. The game
-- client's loops are on fuel as well: more rounds than bytes are enough for `send`, and for `processPacket`
-- wherever it ends. The network thread needs for each receive more rounds than the server has sent
-- results. A client of the load test needs more rounds than there are packets, the client thread
-- more turns than there are pending sockets, and `DoTasks` more rounds than there are jobs that are
-- due, as long as no tick wraps.
--
-- A call that asserts, or that goes through the null pointer, has the result type `Outcome`, whose
-- `crashes` is the end of the process. `size_t` has 32 bits, as in the project's Win32
-- configuration, and its sums and differences wrap.
--
-- Not modelled: what EasyServer.cpp does behind its endless loops, which is never reached; the socket
-- and file calls of Winsock, sqlite3 and its headers, the graphics of the Cocos2d-x client and the
-- project files.
pub mod Prelude
pub mod CircularBuffer
pub mod ProducerConsumerQueue
pub mod DatabaseJobManager
pub mod PacketType
pub mod DatabaseJobContext
pub mod ClientSession
pub mod PacketHandling
pub mod ClientManager
pub mod DbHelper
pub mod Scheduler
pub mod ObjectPool
pub mod ClientBuffer
pub mod TcpClient
pub mod DummyClient
pub mod ClientThread
pub mod HelloWorld
pub mod Journey
pub mod CrashDump
pub mod Startup
