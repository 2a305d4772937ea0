-- ===== src/Tests/Backlog.antt =====
-- The workers and the database thread coming to rest, at concrete states.
use cpp_epoll_chat.Base.{◌≡◌, [], ◌∷◌, some, arith}
use cpp_epoll_chat.Backlog.Rest.{drain_queue_ends}
use cpp_epoll_chat.Protocol.{cmd_load_message}
use cpp_epoll_chat.RoomEvent.{RoomEvent, ActionCommand, room_event}
use cpp_epoll_chat.RoomWorker.Process.{run_worker, queue_of, drain_queue}
use cpp_epoll_chat.Tests.Fixtures.{bob, world, chat_room, lobby_room}
use cpp_epoll_chat.World.{World, WorkerType}

-- The requests of two clients for older messages and for an answer wait at the worker of the chat room.
abbrev asks : RoomEvent
asks = record (room_event cmd_load_message) {
  actions =
      record { command = ActionCommand.request_db_load_message; target_room_id = 5 }
      ∷ record { command = ActionCommand.send_response; target_room_id = 5 }
      ∷ [];
  target_room_id = 5;
  session = some bob;
}

abbrev busy : World
busy = record world {
  workers =
      (
        1,
        record {
          worker_id = 1;
          type = WorkerType.lobby;
          rooms = (1, lobby_room) ∷ [];
          event_queue = [];
        },
      )
      ∷ (
        2,
        record {
          worker_id = 2;
          type = WorkerType.room;
          rooms = (5, chat_room) ∷ [];
          event_queue = asks ∷ [];
        },
      )
      ∷ [];
}

drain_queue_ends_example : queue_of 2 (drain_queue 5 2 busy) ≡ []
unfolding room_event
drain_queue_ends_example = drain_queue_ends 5 2 busy (omega arith)

abbrev asked : World
asked = run_worker 2 busy
