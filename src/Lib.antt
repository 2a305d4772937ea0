-- ===== src/Lib.antt =====
-- The chat server of this repository: clients hold TCP connections to a server in which one main thread
-- reads requests and hands them, as events, to workers that own the rooms, and a database thread that
-- answers the workers' jobs.
--
-- The parts, the files that model them, and the sources:
--   Codec       protocol/Codec.h: put, put_str and the Reader.
--   Message     protocol/Message.h: serialize and parse of chat messages.
--   Result      protocol/Result.h: result codes and their translation.
--   Protocol    protocol/Protocol.h: packets, and their layout in memory as serialize_packet sends it.
--   Session     server/src/network/Session.cpp: one connection, on_readable, extract_packet, pack, flush.
--               Session.Framing also has the packet loop of Server::handle_request
--               (server/src/server/Server.cpp).
--               Session.Threads is pack and flush by several threads at once, in smaller steps.
--   Room        server/src/room/Room.cpp: the sessions of a room under its limit.
--   User        server/src/user: users and UserManager.
--   RoomEvent   server/src/event: events and the actions that they carry.
--   World       what the threads share: the session objects by address, the users, the workers' rooms and
--               queues, the routes from rooms to workers, the jobs and the main thread's events; and the
--               posts to the queues (RoomWorker::post_event, DBWorker::post_job, the requests of
--               server/src/server/Server.cpp).
--   RoomManager server/src/room/RoomManager.cpp: Plans (which actions carry out a command), Routing (which
--               worker owns a room) and Dispatch (what the main thread calls).
--   RoomWorker  server/src/room/RoomWorker.cpp: the handlers; RoomWorker.Process is process_event and the
--               database callbacks. The other modules below it hold lemmas on these.
--   SessionManager  server/src/network/SessionManager.cpp: the sessions by descriptor.
--   System      the steps that the workers and the database thread take, in any order, and the main
--               thread's single calls on what they share; the main thread as a whole is in Server.Running.
--   Backlog     how much waits at the workers and the database thread, and that each step of theirs
--               leaves less.
--   Epoll       server/src/core/Epoll.cpp: the epoll descriptor, over the kernel's epoll_ctl.
--   Socket      server/src/network/Socket.cpp: the owner of a descriptor. Owner is what this class, the
--               client's Socket (Client.Handle) and DBResult (Db.Holder) offer alike.
--   Server      server/src/server/Server.cpp: the main thread. Server.Start is what the constructors of the
--               server, the manager and the workers set up; Server.Launch is how they do it, the loop of
--               run, the destructor and the program (server/run_server.cpp); Server.Running is run, between
--               the steps of the other threads; the other modules below Server hold lemmas.
--   Db          server/src/db: DBWorker, DBConnection, DBResult and the repositories, over libpq.
--   Client      client/src: Socket, Text (the words of a line), State, Requests (what is typed), Replies
--               (what arrives), Loop and Launch (the constructor, client/src/Epoll.cpp and
--               client/run_client.cpp). Client.Sending and Client.Packets set it against the server.
--   Journeys    requests on their way through the workers; Journeys.Shown and Journeys.Heard go on to
--               the client.
--   Decimal     std::to_string and std::stoll, for parameters and values of the database.
--   Base        lists, bytes, Boolean tests, and maps as association lists.
--   Tests       runs on concrete inputs.
--
-- How the parts meet: Session.extract_packet yields a Packet, RoomManager.Dispatch.dispatch_packet plans
-- its actions and posts the event to the worker of its room, RoomWorker.Process.process_event carries
-- out the actions up to one that hands the event on (to another worker, or to the database with a
-- callback) or ends it, and the handlers write to sessions, rooms and users of the World. On the way in,
-- Server.handle_request reads a connection and dispatches its packets; on the way out, a worker's
-- send_packet posts to the main thread, whose handle_events changes the interest of epoll or closes the
-- session; a job goes to Db.process_job, whose callback posts the waiting event on. The client's
-- send_request writes what extract_packet reads, and its handle_packet reads what send_response and
-- send_message write.
--
-- Bounds and fuel: a size_t and an int64_t have 64 bits, a length on the wire 32; ids are kept as their
-- bit patterns, and integers lie in memory lowest byte first. The counter of a room is a natural number:
-- in a valid room it is at least the number of sessions, so it never goes below 0. process_loop has the
-- number of actions as fuel, since each round begins one more. extract_all wants fuel for the bytes that
-- wait, since each packet takes 17 or more. The kernel's answers to recv and send are scripts, after
-- which a call would block, and so each loop over them ends. The random draws of bind_room_worker are
-- arguments. The loop of handle_request has one more than the bytes that wait. The client's socket
-- blocks: behind its script of arrivals the connection is gone. drain_queue, the loop over a worker's
-- queue, wants as fuel the backlog: 1 for an event and 2 for each action that is left, 1 for a job and
-- what its event counts; run_jobs has a round for each of the draws that it is given, and stop waits for
-- as many rounds.
--
-- Not modelled: threads finer than one handler of an event at a time, but for pack and flush of a
-- session (Session.Threads); allocation failure; starting and waking threads, and what other threads do
-- while one is joined; the kernel and libpq, which are parameters and scripts; db::account::serialize,
-- which the repository declares but does not define; the terminal, beyond the lines that the client
-- shows; the logs of the server.
pub mod Base
pub mod Codec
pub mod Message
pub mod Result
pub mod Protocol
pub mod Session
pub mod Room
pub mod User
pub mod RoomEvent
pub mod Decimal
pub mod World
pub mod RoomWorker
pub mod RoomManager
pub mod Journeys
pub mod System
pub mod Backlog
pub mod Tests
pub mod Client
pub mod SessionManager
pub mod Server
pub mod Db
pub mod Epoll
pub mod Owner
pub mod Socket
