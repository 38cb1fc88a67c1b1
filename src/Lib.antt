-- ===== src/Lib.antt =====
-- A chat server and the library beneath it, as a program in C++ under server/.
--
-- Clients connect over TCP and send JSON texts: a login request with a username, or a message. The
-- server has two threads. The main thread (`server::listen`) waits in `flex_waiter::wait` on standard
-- input, the listening socket and all clients' sockets at once and calls one of `onSTDIN`,
-- `onSocketServer` and `onSocket`. `onSocket` reads a text, parses it, dispatches it by its type
-- through a visitor, gives a name to the client of an accepted login, and queues the response. The
-- sender thread (`server::sendMessages`) writes every queued response to every client.
--
-- The files, and the code that each is about:
--   Base.antt and Base/      lists, strings as bytes, results with exceptions, Boolean tests
--   Boost.antt               Boost.PropertyTree, its JSON reader and writer, and the printing of times,
--                            as a record of operations and laws that the rest takes as a parameter;
--                            Boost/Sample.antt is an instance of it
--   Msg/Json.antt            server/lib/include/msg/json.hpp: `from` with its trimming, and `to`
--   Msg/Instance.antt        server/lib/include/msg/instance.hpp and server/lib/src/msg/instance.cpp
--   Msg/LoginRequest.antt, Msg/LoginResponse.antt      server/lib/include/msg/login.hpp, login.cpp
--   Msg/MessageRequest.antt, Msg/MessageResponse.antt  server/lib/include/msg/message.hpp, message.cpp
--   Msg/ErrorCode.antt, Msg/ErrorResponse.antt         server/lib/include/msg/error.hpp, error.cpp
--   Msg/AnyInstance.antt     the five classes as one type, for `std::shared_ptr<msg::instance>`
--   Msg/Printing.antt        the methods of msg::instance on every class, `fromJson<T>` and `<<`
--   Msg/RequestVisitor.antt, Msg/ResponseVisitor.antt  server/lib/include/msg/visitor.hpp
--   Net/World.antt           the socket objects, as a heap of handles, and the descriptors that the
--                            process holds
--   Net/Socket.antt          server/lib/include/networking/socket.hpp, server/lib/src/networking/socket.cpp
--   Net/SocketServer.antt    server/lib/include/networking/socket_server.hpp and its .cpp
--   Net/FlexWaiter.antt      server/lib/include/networking/flex_waiter.hpp and its .cpp
--   Server.antt              server/server/include/server.hpp and server/server/src/server.cpp: the
--                            state, `start`, `onSocket`, `onSocketServer`, `visitLogin`,
--                            `visitMessage` and `sendMessages`
--   Server/Clients.antt      the loops of server.cpp over the vector `sockets`
--   Server/Listen.antt       `listen`, `onSTDIN` and `stop`
--   Server/Entry.antt        server/server/src/main.cpp: the two threads that `start` leaves, round by
--                            round, and the destructors when `main` returns
--   Server/Room.antt         what the server promises, without descriptors, locks and the order of the
--                            clients: a room whose members may have a name, and announcements that are
--                            broadcast in order
--   Server/Threads.antt      the two threads with the state of the server: `onSocket` and
--                            `onSocketServer` are cut into the sections that they make of the two
--                            mutexes, and a round of `sendMessages` into one step for each message
--   Server/Threads/Ends.antt      the steps of the two threads that throw, which end the process
--   Server/Threads/Delivery.antt  the texts that the threads write to one client
--   Server/Locks.antt        the two mutexes of server.cpp and the two threads that take them, as a step
--                            relation whose steps are single locks, unlocks and moves
-- A module below one of these holds what is shown of it, or runs it on concrete inputs (Tests).
--
-- How the code is read. A member function is a function of the state before to the state after; one
-- that throws gives `thrown` with the exception and the state that it leaves. What a system call
-- answers is an argument, with `none` for -1. A std::string is a native string with one character per
-- byte. A shared_ptr to a socket is its handle. Numbers of bytes and descriptors are natural numbers;
-- an error code is a number below 2 ^ 16. The order in which the waiter's unordered set is iterated
-- is an argument of `wait`. No function needs fuel: the loops run over lists; `listen` runs over
-- the list of rounds that the environment grants, and `main` over the turns of the two threads.
--
-- What is assumed of the code that is not here: the laws of `Library` in Boost.antt, and, where a
-- theorem says so, that ::select reports only descriptors which it was asked about, that ::eventfd
-- and ::accept answer with descriptors which the process does not hold, that the iteration of a set
-- visits its elements, or that ::write takes a text whole.
--
-- The two threads are seen three times. In Server.antt a callback or a round of the sender is one
-- function, with no preemption, and in Server/Entry.antt such rounds follow one another. In
-- Server/Threads.antt they interleave between sections, with the whole state: a step is a section, or
-- what a thread does up to the next one. In Server/Locks.antt they interleave at every lock and unlock,
-- with no state but the mutexes, `killed` and the size of the queue; there an exception of one thread is
-- a step after which neither goes on.
--
-- Not modelled: preemption inside a section; what the other thread still does while the process ends
-- after a throw, or after `main` has destroyed the server that it still uses; what is printed to
-- standard output and standard error, and that `main` reads the port from standard input; the client
-- under client/; the copies of another project's files
-- server/lib/include/chrono_io and ratio_io; build files.
pub mod Base
pub mod Boost
pub mod Msg
pub mod Net
pub mod Server
