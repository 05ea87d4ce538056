-- ===== src/Lib.antt =====
-- psi-shared lets a server process and its client processes call each other through shared
-- memory. Three objects lie in the shared memory: the call space, into which clients append
-- serialized calls; the callback space, whose slots carry the answers back; and the event space,
-- with one ring of events for each registered client. The server takes all calls from the call
-- space at once, runs the method of each, puts the answer into the slot whose index the call
-- carries, and offers events to the clients. This library models these parts, function by
-- function, and states what makes them correct.
--
-- Base: shared helpers. Base/Tests has Boolean tests on numbers, Base/Lists lists over the native
-- numbers, Base/Memory what memcpy writes and reads, Base/Words the wrap-around of uint16_t,
-- uint32_t and uint64_t and the bytes of an integer, least significant first.
--
-- EventRing: psi/include/psi/shared/ipc/space/EventRingBuffer.h. `push`, `pop` and `reset` are
-- the methods of that name. Slots are lists of bytes with their four-byte header. A view's
-- pointer is the index of its slot, so it reads what the slot holds when it is read. EventQueue
-- is what the ring promises, a bounded queue of messages; EventRing/Refine relates them,
-- EventRing/Valid has the invariant, EventRing/Index and EventRing/Slot the lemmas on indices and
-- bytes, EventRing/View the views that outlive the lock.
--
-- EventSpace: psi/include/psi/shared/ipc/space/EventSpace.h. `register_client`,
-- `unregister_client`, `push` and `pop` are the methods; the loops are `register_from` and
-- `push_from`. EventSpace/Deliver and EventSpace/Register state them on the queues of the
-- clients.
--
-- CallSpace: psi/include/psi/shared/ipc/space/CallSpace.h, a flat buffer with a write index.
-- CallSpace/Refine relates it to a log of bytes, CallSpace/ClientIds is about the ids that it
-- gives out.
--
-- CallbackSpace: psi/include/psi/shared/ipc/space/CallbackSpace.h. A slot is its status byte,
-- size and data. CallbackSpace/Slots and CallbackSpace/Refine relate it to slots that are free,
-- waiting or answered, CallbackSpace/Reserve is about the search for a free one,
-- CallbackSpace/Valid about the invariant.
--
-- Protocol: psi/include/psi/shared/ipc/protocol/. Protocol/Serializer and Protocol/Deserializer
-- are Serializer.h and Deserializer.h, for trivially copyable types, strings, vectors of any of
-- these, and packs of them. Protocol/Encoding is the wire format as a function to bytes;
-- Protocol/Write and Protocol/Read relate the two to it, Protocol/Arguments to each other.
--
-- Call: psi/include/psi/shared/ipc/IPCCall.h with protocol/Serializable.h. Callback:
-- psi/include/psi/shared/ipc/IPCCallback.h and IPCError.h. In both, Message or RoundTrip gives
-- the bytes and what the other side reads.
--
-- Server: psi/include/psi/shared/ipc/server/IServerIPC.h, IServerIPCBase.h and
-- psi/src/psi/shared/ipc/server/ServerIPCBase.cpp. `read_memory`, `on_read_call_memory`,
-- `on_callback` and `notify_event` are the functions of that name. The lookup in the map of
-- methods is the parameter `find_method`; what becomes of each call is a value of `Effect`.
--
-- SharedMemory: psi/src/psi/shared/sm_manager_impl.h, sm_object_impl.h and sm_managers.cpp, as
-- built on Linux. The calls of the system are the parameter `Os`, what is relied on of them is
-- the record `IsPosix` of SharedMemory/Posix, and SharedMemory/Sample is a system that has it.
-- The operations of a manager are in SharedMemory by their names; `none` is an access to no
-- memory, which ends the process. SharedMemory/Services has allocateMemory and freeMemory of the
-- server and connectToService of the client, SharedMemory/Meeting the two together,
-- SharedMemory/Failures what happens when a call of the system fails, SharedMemory/Managers the
-- spaces that have managers, and SharedMemory/Registry the managers of a process.
--
-- Mutex: psi/src/psi/shared/os_mutex.h and os_mutex.cpp, over the calls on semaphores as a
-- parameter; Mutex/Exclusion interleaves threads that lock and unlock.
--
-- Wrapper: psi/include/psi/shared/ipc/server/MemberFnWrapper.h. `invoke` is operator(), by the
-- kind of the method; Wrapper/Unpack is about the arguments.
--
-- Client: psi/include/psi/shared/ipc/client/IClientIPC.hpp and
-- psi/src/psi/shared/ipc/client/ClientIPC.cpp. The state is the record `Client`; `connect`,
-- `disconnect`, `update_connection_status` and the subscriptions are in Client, `call_server` and
-- its parts in Client/Sender, by the functions' names. Client/Reader has one round of each of the
-- two loops: `collect` looks at the entries that wait for answers, `on_answer` is the function of
-- an entry, `read_ev_data` takes the events; Client/Rounds has a whole round of the first loop,
-- with the calls of the callbacks. Callbacks and listeners are values of a type F, and what they
-- are called with is returned as a list. Client/Posting and Client/Requests are about a call that
-- is sent, Client/Answers and Client/Drain about the two rounds, Client/Valid about the
-- invariant, Client/Session about connections and subscriptions, Client/Late about answers after
-- a timeout, Client/Future about `call_server_with_return`, Client/Lifecycle about the
-- constructor and the destructor, Client/Oversize about calls that are just too long.
-- Client/Arrival, Client/Exchange and Client/Notice join client and server: a call, its answer,
-- an event. Clock and flag are parameters of a round, the texts of std::format too.
--
-- InFlight, Traffic, Feed and World interleave clients and server over the spaces. A step of the
-- first three is what is done under one lock. InFlight follows the calls that wait for answers,
-- by a step relation on the callback space and on the entries of all clients; InFlight/Runs shows
-- that the functions of the client are runs of these steps, InFlight/Rounds is about the rounds
-- of `readCbData` among all these, InFlight/Ended about the end of a client. Traffic follows the
-- calls from the pushes to the buffers that the server takes, Feed the events from the
-- announcements to the clients, Feed/Rounds with the rounds of their loops. World has the
-- operations of all parts on the three spaces, whole and lock by lock.
--
-- Event: psi/include/psi/shared/ipc/IPCEvent.h with client/IEventClientIPC.h and
-- server/IEventServerIPC.h. Example: psi/examples/1.0_Simple_SharedMemory/, the method table, the
-- calls and the service of the example program; Example/Calls is about which method a call runs.
--
-- What is done while a lock is held is one step of a model, and Mutex/Exclusion is why that is
-- so. Template arguments are parameters; their bounds are those of uint16_t. Numbers are
-- unbounded, and each conversion and sum that the code stores in a narrower type is reduced where
-- the code stores it. A write past the end of an array and a read past it, which the code must
-- not do, are cut off in the model; the theorems have the hypotheses under which they do not
-- happen, but for Client/Oversize, which is about a call for which the code goes past the end of
-- its array. A space or a ring that a theorem speaks of is one that satisfies its invariant. The
-- loop of `on_read_call_memory` runs on fuel of one more than the size of the buffer, which is
-- enough, since each round but the last takes 16 bytes at least. The loop of `drain` runs on 1024
-- units of fuel in `read_ev_data`, and a ring holds at most 1023 events. All other loops are
-- structural.
--
-- Not modelled: the Windows branches of the shared memory and the mutex; the threads that repeat
-- the rounds of client and server, and their condition variables; the loop on which callbacks and
-- methods may run; the typed events of the server that subscribe to nothing; IPCServiceRunner,
-- which does not compile; the compile-time helpers of TemplateHelpers.h, whose uses are
-- recursions over the types of a pack; main and the benchmarks of the example; logging.
pub mod Base
pub mod Protocol
pub mod Call
pub mod Callback
pub mod EventQueue
pub mod EventRing
pub mod EventSpace
pub mod CallSpace
pub mod CallbackSpace
pub mod Server
pub mod SharedMemory
pub mod Mutex
pub mod Wrapper
pub mod Client
pub mod InFlight
pub mod Traffic
pub mod Feed
pub mod World
pub mod Event
pub mod Example
