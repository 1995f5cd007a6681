-- ===== src/Lib.antt =====
-- A model of RIOIOCPServer, a game server over Windows registered I/O (RIO) and I/O completion ports
-- (IOCP): of its network core, and of the game that it runs.
--
-- Parts, and how they work together. A session owns a receive buffer and a send buffer. When a receive
-- completes, `ProcessRecv` counts the bytes in (`OnWriteBuffer`), cuts whole packets off them
-- (`OnRecv`), gives each to `OnRecvPacket`, takes them out (`OnReadBuffer`), moves what is left to the
-- front (`AdjustPos`) and posts the next receive. A packet to send is built by `_CreateNetBuffer` and
-- queued by `Send`; `SendDeferred` copies the queue into the send buffer, hands its bytes to RIOSend in
-- chunks and commits them, and `ProcessSend` takes completed bytes out.
-- `OnRecvPacket` gives a packet to `HandlePacket`. A login makes a player and puts it into the room; a
-- move or a chat changes the player and gives a job to its zone; a logout gives a job to the room. A
-- worker executes the jobs: `MovePlayer` of a zone moves the player to the set of its sector, compares
-- who is near with the player's view list and tells both sides, and `Chat` tells all who are near.
-- The client of the stress test connects many sessions; its threads share them and let the manager send
-- a login or a move for each of them once in a second.
--
-- Files, and the code that each is about (paths from the root of the repository):
--   Prelude        shared types, Boolean tests, lemmas on lists and remainders, and `Outcome`: a call
--                  returns (`ok`), runs into undefined behaviour (`ub`) or used up the fuel (`running`)
--   Memory         memcpy, which is undefined out of bounds or when its ranges overlap
--   RingBuffer     ServerCore/Network/RingBuffer.cpp and .h; `Contents` says which bytes a buffer holds
--                  and when it is well formed, `Write`, `Read`, `Adjust` and `Overlap` are about
--                  WriteBuffer and OnWriteBuffer, ReadBuffer and OnReadBuffer, and AdjustPos
--   RioBuffer      ServerCore/Network/RioBuffer.cpp and .h; `Unsent` is about the bytes between the send
--                  position and the head
--   Packet         ServerCore/Network/PacketHeader.h and OnRecv of RioSession.cpp and IocpSession.cpp;
--                  `Framing` says what a stream of packets is, independently of the loops
--   NetBuffer      ServerCore/Network/NetBuffer.cpp and _CreateNetBuffer of
--                  RIOIOCPServer/Session/PacketHandler.h
--   RioSession     ServerCore/Network/RioSession.cpp and .h: `Defs` the state, `Connection` Send,
--                  Disconnect, RegisterRecv, ProcessConnect and InitSession, `Receive` ProcessRecv and
--                  ProcessSend, `Send` RegisterSend, SendCommit and SendDeferred. `History` under
--                  `Receive` and `Send` follows a session over any number of steps
--   IocpSession    ServerCore/Network/IocpSession.cpp and .h; `Threads` has the steps that threads take
--                  on its send path, one locked block or one call of WSASend each, `Steps`,
--                  `Completion` and `Exclusive` what they keep, `Failure` a WSASend that fails,
--                  `Receive` ProcessRecv
--   RwLock         ServerCore/Thread/RWLock.cpp and .h: `Held` has the steps of threads on the lock word,
--                  `Readers`, `Writers` and `Exclusion` who may hold the lock, `NoId` a thread without id
--   JobQueue       ServerCore/Job/JobQueue.cpp and .h, with Push and PopAll of ServerCore/Utils/LockQueue.h:
--                  `Workers` has the steps of threads, `Steps` and `Actor` what they keep
--   GlobalQueue    ServerCore/Job/GlobalQueue.cpp and .h, with Push and Pop of LockQueue.h: `Pool` has the
--                  steps of threads on all job queues, `Standing` which queues stand in the list
--   ServerProxy    the loops of the workers of ServerCore/Network/ServerProxy.cpp, on fuel: `Loops` has how
--                  they end
--   ObjectPool     ServerCore/Memory/ObjectPool.h; `Uses` says how a program uses a pool
--   RioCore        ServerCore/Network/RioCore.cpp: the sessions of a core under their lock; `Relock` is
--                  about DeferredSend
--   RioServer      Accept of ServerCore/Network/RioServer.cpp; `Turns` is about which core gets a session
--   Game           RIOIOCPServer/Contents and RIOIOCPServer/Session: `Float` the rounding of Room.cpp,
--                  `Position` the map, its cells and
--                  distances (Room.h, Room.cpp, IsNear of Zone.cpp), `Defs` the players, sessions and
--                  rooms, `Messages` the Send methods of RioServerSession.cpp, `Room` Room.cpp, `Zone`
--                  MovePlayer and Chat of Zone.cpp, `Packets` PacketHandler.h and OnDisconnected, and
--                  `Steps` all of them in any order
--   ThreadManager  ServerCore/Thread/ThreadManager.cpp; `Ids` is about the ids of its threads
--   IocpService    ServerCore/Network/IocpService.cpp, IocpListener.cpp and ConnectNewSession of
--                  IocpClient.cpp; `Accepting` is about RegisterAccept, `Steps` about a service over its
--                  whole life
--   DummyClient    DummyClient, the client of the stress test: `Moves` MoveComponent, `Sessions`
--                  ClientSession, its PacketHandler and TestSessionManager, `Senders` the turns of the
--                  sender threads in StressTestClient.cpp;
--                  `Sessions/Accepted` puts a client and the server together
-- A function keeps its name in the spelling of this library (`WriteBuffer` is `write_buffer`), a
-- member its name without `m_`. Methods that change the object return the new object.
--
-- Numbers. Sizes, positions and bytes are natural numbers. The `unsigned short` fields of a header are
-- cut to 16 bits where the code does so. The `int` sizes of the buffers are at most their capacity,
-- 65536 in a session, so they do not overflow.
--
-- Coordinates of players are `float`; the model has those that are whole numbers of 65536ths, as each of
-- 128 and more is. The room rounds them as `float` does where it computes a zone or a sector
-- (`Game.Float`); the moves of the client are computed exactly. Ids of players do not overflow an `int`.
--
-- The game. A `shared_ptr<Player>` is the player's id and a session a number, both in stores that are
-- part of the state. The sets of players are lists, in the order in which a loop goes through them. A
-- handler, a job or a disconnection is one step: what several threads do at the same time inside two of
-- them is not modelled. A job waits in its queue until a worker takes it, as `Push` gives the queue to
-- the GlobalQueue. `Send` of a session that is open puts the message into the `outbox`; that it reaches
-- the client is the matter of the session.
--
-- Fuel. Loops take a number of rounds; `running` is the result when it is used up. The theorems take
-- more rounds than there are bytes for WriteBuffer, ReadBuffer and OnRecv, and more than the capacity,
-- the queue and its bytes for SendDeferred, and conclude that the call returns.
--
-- Outside the model. Winsock, the clock and the virtual methods are the fields of `World` and
-- `IocpWorld`: their answers may depend on all that a session did before. Theorems on the receive and
-- send paths ask that the bodies of the virtual methods leave these paths alone (`KeepsReceiving`,
-- `KeepsSending`, `KeepsSends`). The steps of a RIO session run one after another; those on the send
-- path of an IOCP session, on a lock and on a job queue are taken by any number of threads. A
-- NetBuffer in a send queue is the bytes that it holds: those that _CreateNetBuffer makes start at index
-- 0, where SendDeferred reads them.
-- The messages are generated protobuf code: the network core has their bytes, the game their members,
-- and `ParseFromArray`, the clock, the random position and `SetLinger` are the fields of `Outside`; the
-- client has an `Outside` of its own, with `sqrtf` and the draws of its random numbers. A session of the
-- client is the flags and the id that `ClientSession` adds to IocpSession, whose buffers are those of
-- the module IocpSession. The turn of a sender thread is one step.
-- What Windows answers to a service is in `Windows`, by the number of the session that a call is for;
-- a handler of a service is one step, and takes fuel for the calls that RegisterAccept makes of itself.
-- The clock that a worker reads, what a job queue does when it is executed and what `Dispatch` does are
-- in `Worker`; a round of its loop takes one step of fuel.
-- Not modelled: the completion port and starting and stopping the services, the creation of sockets,
-- completion queues and threads, and the averages of delays and the console output of the client.
pub mod Prelude
pub mod Memory
pub mod RingBuffer
pub mod Packet
pub mod NetBuffer
pub mod RioBuffer
pub mod RioSession
pub mod RioCore
pub mod RioServer
pub mod ObjectPool
pub mod IocpSession
pub mod IocpService
pub mod RwLock
pub mod JobQueue
pub mod GlobalQueue
pub mod ServerProxy
pub mod ThreadManager
pub mod Game
pub mod DummyClient
