-- ===== src/Lib.antt =====
-- The verification library of PraaS, a platform that runs cloud functions in long-lived processes.
--
-- A process (process/) is a controller with its workers. The controller receives messages from other
-- processes, the data plane and the control plane over TCP, and messages from its workers over POSIX
-- message queues. It keeps a mailbox of messages and of the process's state, the requests of workers
-- that cannot be answered yet, a queue of invocations, and the workers themselves. The control
-- plane (control-plane/) allocates processes, keeps them in the tables of their applications, sends
-- them invocations, and swaps them out. This library models the two message protocols, the queue
-- channel, the controller, the TCP server of a process, and the processes, applications and TCP server
-- of the control plane.
--
-- The program's parts, and where they are:
--
--   Base, Wire, Result   Shared: lists, texts, maps with text keys; bytes, words and fixed-width names
--                        in a buffer; exceptions as values (common/include/praas/common/exceptions.hpp).
--                        Result has a third value, `undefined`, for an access that C++ leaves undefined.
--   Message              common/include/praas/common/messages.hpp: the messages of 70 bytes between
--                        processes. A module for each class, with its constructor over a buffer
--                        (of_buffer), the constructor of an empty message (fresh), its accessors under
--                        their names and its setters as set_*; Parser is MessageParser; Builders are
--                        the setter sequences of process/controller/src/remote.cpp.
--   Ipc                  process/runtime/include/praas/process/runtime/internal/ipc/messages.hpp and
--                        process/runtime/src/internal/messages.cpp: the messages of 128 bytes between
--                        controller and workers, laid out in the same way. Ipc/Channel is
--                        POSIXMQChannel of process/runtime/src/internal/ipc.cpp.
--   Controller/Mailbox   MessageStore of process/controller/src/messages.cpp.
--   Controller/Pending   PendingMessages of the same file.
--   Controller/WorkQueue WorkQueue and Invocation of process/controller/src/workers.cpp.
--   Controller/Workers   Workers and FunctionWorker of the same file, and the scheduling loop of
--                        Controller::poll.
--   Controller/Application  common/include/praas/common/application.hpp.
--   Controller/State, Replies, Internal, External   The class Controller and its handlers,
--                        process/controller/src/controller.cpp: State has the members, Replies what
--                        several handlers do, Internal the handlers of workers' messages, External
--                        those of remote messages and of application updates.
--   Controller/Rendezvous, RemoteRendezvous, Delivery, Broadcast, Answers, Invariant   Theorems on the
--                        handlers; Talking and Requests hold what they share, Answers/Carried and
--                        Delivery/Served how an answer and its arrival are described.
--   Outcome              The calls of the two servers as values: what they return or throw, the state
--                        that they leave, and their effects on the outside in order.
--   Remote               The TCP server of a process, process/controller/src/remote.cpp: Receiving is
--                        _handle_message with its handlers and the registration of peers, Sending are
--                        put_message, invocation_request, invocation_result and the client callback.
--   ControlPlane/Process Process of control-plane/src/process.cpp: Requests are the invocations, Life
--                        the allocation, the connection and the request to swap out; Sound is its
--                        invariant, Waiting, Clients and Creation hold theorems.
--   ControlPlane/Application  Application of control-plane/src/application.cpp with the processes that
--                        it can reach: Allocation and Swapping are its operations, Consistent its
--                        invariant; Keeping, Allocating, OnDemand and Calls show that it is kept,
--                        Lifecycle, Stepping, Growing and Refining that the code follows the life
--                        of a process; Swaps has theorems on swapping.
--   ControlPlane/World, Server, Workers   Resources of control-plane/src/resources.cpp with the tables
--                        of the TCP server; control-plane/src/tcpserver.cpp; the requests of
--                        control-plane/src/worker.cpp.
--   Runtime              The context of a user function, process/runtime/src/context.cpp and
--                        process/runtime/include/praas/process/runtime/context.hpp: Output is its
--                        output buffer, Requests are state, put and get, Invoking is invoke; Invoker
--                        is the check of a request and finish of
--                        process/runtime/src/internal/invoker.cpp.
--   Wire/Buffer          The byte buffer of the trantor library, a parameter of both servers.
--   Tests                The theorems at concrete inputs.
--
-- How they interact. A handler takes the controller's state and returns a new one. A message to a
-- worker is appended to the packets of the worker's channel, as Ipc/Channel sends it; a call of the
-- remote server is appended to a log. A worker is named by its place in the vector of workers.
-- An object of the control plane that several tables share stands in a store, and the tables hold its
-- place; so do the connection objects of a process. What these parts ask of other libraries, of each
-- other's event loops and of the backend is an effect, and what is called back later is an operation
-- of its own: the steps may come in any order.
--
-- Representation. Buffers are lists of bytes, numbers natural; words are little-endian, as on the
-- platforms the program is built for, and a signed word of w bits is read and written modulo 2^w.
-- A view of a name has the length that its object has measured or set. An unordered map is an
-- association list seen through its operations. The clock and the serialisation of the state keys
-- (the cereal library) are arguments, and so are the bytes of a fresh block
-- of memory and what the invoker's channel answers to a get.
--
-- Fuel. The loop that cuts a message into packets has the message's length as fuel, one byte at least
-- being sent in a round. The scheduling loop of poll has the number of idle workers and one more: every
-- round but the last takes an idle worker.
--
-- The recursion of handle_message in both servers has fuel; for the server of the control plane any
-- fuel above the number of bytes in the buffer is enough, since every message that is consumed takes
-- bytes from it.
--
-- Not modelled: epoll, threads, locks and signals; opening and closing of queues and the fork of the
-- workers; errors of the operating system; the pool of buffers; logging and the texts of exceptions;
-- start and shutdown of the servers; the HTTP interface, whose requests are modelled from
-- control-plane/src/worker.cpp on; the backends, which are calls of Docker and AWS, but for the connect
-- of their instances; the loop of the invoker inside a worker and its call of the user's function,
-- state_keys of the context; the serving container. Handlers run one at a time.
pub mod Base
pub mod Wire
pub mod Result
pub mod Outcome
pub mod Message
pub mod Ipc
pub mod Controller
pub mod ControlPlane
pub mod Remote
pub mod Runtime
pub mod Tests
