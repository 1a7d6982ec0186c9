-- ===== src/Lib.antt =====
-- A model of YServerCore, a Windows game server on I/O completion ports, and of the code that its
-- client shares with it.
--
-- Parts and files:
--  * Common: shared names, lists over the native numbers, tests, and the ways in which a call ends.
--    `Result` has the values of `Error`: an access outside an object, a memcpy between overlapping
--    ranges, a null pointer and a use after delete, which C++ leaves undefined; the runtime's
--    invalid parameter handler; a lock that its holder takes again; a loop that is still running; a
--    delete of what new did not make; and `std::terminate`.
--  * CString: the C runtime's `strcpy_s` and `strcmp`, `fgets` on an input of bytes, and the reading of
--    a char array as text.
--  * Packet: YServerCore/PacketDataStructure.h and YServerCore/Definition.h. A struct is a record and,
--    in Packet/Layout, the bytes of its memory, in the layout of MSVC for little-endian machines.
--    `SetHeader` is four functions: `set_type`, `set_success`, `set_result`, `set_header`; a call of it
--    with a literal is `set_literal`.
--  * Framing: the loop of `Session::OnRecv` (YServerCore/Session.cpp) and `Client::RecieveWork`
--    (Client/Client/Client.cpp), over a table of handlers: `next` is one round, `drain` the loop,
--    `compact` what follows it, `absorb` all of it.
--  * Handlers: the table of YServerCore/PacketProcess.h. A handler copies the packet and starts a
--    request with `std::async`; the model gives the list of the requests that were started.
--  * PacketProcess: the class of YServerCore/PacketProcess.h and YServerCore/PacketProcess.cpp: its
--    instance, and the functions that make and read headers.
--  * Session: the class of YServerCore/Session.h and YServerCore/Session.cpp. `on_recv`,
--    `ready_to_recieve`, `buffer_packet` (the first block of `SendPacket`), `send`, `send_packet`.
--    `Session.Writers` has the threads that send on one session, as a step relation.
--  * SessionManager: YServerCore/SessionManager.h. The vector of pointers, the counter and the heap, a
--    round of `HeartBeat`, and the destructor.
--  * Database: YServerCore/Database.h and YServerCore/Database.cpp. MySQL's client library is the
--    parameter `Mysql`: `query` is `mysql_query`, `store_result` is `mysql_store_result`. Database/Store
--    has the store of passwords that it promises, and the laws that it needs of the library.
--    Database/Connection has the class, with the library's calls one by one.
--  * Requests: YServerCore/PacketProcess.cpp, the four requests on the manager and the database.
--    Requests/Refines runs lists of them.
--  * Lock: YServerCore/Lock.h and YServerCore/Lock.cpp. `Lock.Writers` has the threads that write, as
--    a step relation.
--  * Completions: `Thread::NetworkProcess` of YServerCore/Thread.cpp, and the completions of many
--    sessions as a list of events.
--  * Threads: the identities, the queues and the destructor of YServerCore/Thread.h and YServerCore/Thread.cpp.
--  * Server: YServerCore/Server.h and YServerCore/Server.cpp, the start and the accepts. What the
--    system's calls give is an argument.
--  * Client: Client/Client/Client.h and Client/Client/Client.cpp, and the messages of the consoles.
--  * Log: YServerCore/Log.h. `format` is `vprintf` on the conversions %s and %d.
--  * Older: Include/*.h, an older copy of the headers, which no project includes.
--  * Programs: Client/Client/Main.cpp and Server/main.cpp, the two main functions. The threads that
--    run `Send` share the mutex of `AllMessage`: `send_loops` runs them in the order of a schedule, and a
--    turn is a send to one session, or the begin of a message.
--  * System: the server as a whole, as a step relation: an accept, a completion at a session of the vector,
--    one of the pending requests, whichever `std::async` runs, or a message of the console. A step is
--    whole: the two blocks of `SendPacket` are taken apart in `Session.Writers` only. `Thread::Initialize` starts no worker, as its loop is commented
--    out: a completion is what `NetworkProcess` does with it on a thread that runs it.
--  * Examples: concrete packets, sessions, managers and databases, at which the theorems are applied.
--
-- How they interact: `Server::OnAccept` adds a session to the manager and starts its first receive. A
-- completion calls `OnRecv`, whose loop starts requests through the table; a request asks the
-- database, and answers with `SendPacket` to its session or `AllMessage` to all of them.
--
-- Bounds and fuel: a native number stands for each integer, with its wrap-around written out where the
-- code can reach it: `CurBytes` at 2 ^ 64, the lock's word at 2 ^ 32, `LockCount` at 2 ^ 16. The fuel of
-- `drain` is a number of rounds. A round that does not stand at a header of size 0 takes at least one
-- byte, so a fuel above the number of unread bytes is enough for every buffer on which the code returns,
-- and 4097 is enough for a buffer of 4096 bytes. The rounds of `spin` are attempts, and what the other
-- threads do before each. A loop of a main function that does not end has a round for each of its
-- locals. Ten digits are enough for a 32-bit number.
--
-- The system: a receive writes its bytes to the buffer that it was handed (`deliver`); `WSASend` is taken
-- to send what it was handed before it returns, and `wire` keeps it, in order. `last_error` is
-- `WSAGetLastError` after a send, whose documented codes are not negative.
--
-- Not modelled: the sockets themselves, and what `setsockopt` sets; what the database logs;
-- conversions of `printf` but %s and %d, which are taken not to return; accepts and requests that
-- come between the messages of `server_main`, which System has as steps of their own; the bodies
-- that the older headers only declare; and MySQL's headers in Include/MySQL, which are another
-- project's.
pub mod Common
pub mod CString
pub mod Packet
pub mod Framing
pub mod Handlers
pub mod PacketProcess
pub mod Session
pub mod SessionManager
pub mod Database
pub mod Requests
pub mod Lock
pub mod Completions
pub mod Threads
pub mod Client
pub mod Server
pub mod Log
pub mod Older
pub mod Programs
pub mod System
pub mod Examples
