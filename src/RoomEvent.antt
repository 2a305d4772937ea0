-- ===== src/RoomEvent.antt =====
-- server/src/event/{RoomEvent,MainEvent}.h: an event carries the actions that the workers are to do, one
-- after the other, and the point that it has reached.
use cpp_epoll_chat.Base.{
  ℕ, ◌-◌, ◌^◌, List, [], ◌∷◌, ◌++◌, Option, none, some, Bool, true, false, length,
}
use cpp_epoll_chat.Base.{map, get_elem?, leb, ◌==◌, if◌then◌else◌}
use cpp_epoll_chat.Protocol.{
  Command, cmd_create_room, cmd_join_room, cmd_leave_room, cmd_send_message, cmd_load_message,
  unnamed,
}
use cpp_epoll_chat.Result.{Result}
use cpp_epoll_chat.Room.{SessionRef}

-- The largest `int64_t`, and -1 as an `int`, as bit patterns.
abbrev pub pending_room_id : ℕ
pending_room_id = 2 ^ 63 - 1

abbrev pub no_fd : ℕ
no_fd = 2 ^ 32 - 1

pub data ActionCommand : Type 0 where
  create_room join_room leave_room send_message : ActionCommand
  request_db_create_room request_db_load_message save_message : ActionCommand
  request_join_room request_leave_room : ActionCommand
  send_response flush disconnect_session : ActionCommand

pub record RoomAction : Type 0 where
  pub command : ActionCommand
  pub target_room_id : ℕ

-- The entries of the array that are in use; `action_len` is their number.
pub record RoomEvent : Type 0 where
  pub actions : List RoomAction
  pub current_action : ℕ
  pub target_room_id : ℕ
  pub initial_command : Command
  pub fd : ℕ
  pub session : Option SessionRef
  pub request_data : List ℕ
  pub response_data : List ℕ
  pub result_code : Result

-- A new event. `initial_command` has no initial value: the argument is what the memory held.
unfoldable pub room_event : Command → RoomEvent
room_event garbage = record {
  actions = [];
  current_action = 0;
  target_room_id = 0;
  initial_command = garbage;
  fd = no_fd;
  session = none;
  request_data = [];
  response_data = [];
  result_code = Result.no_result;
}

abbrev pub max_actions : ℕ
max_actions = 10

unfoldable pub add_action : ActionCommand → ℕ → RoomEvent → Bool × RoomEvent
add_action cmd room_id e = if leb max_actions (length e.actions) then (false, e) else (
  true,
  record e { actions = e.actions ++ (record { command = cmd; target_room_id = room_id } ∷ []) },
)

abbrev pub resolve_action : ℕ → RoomAction → RoomAction
resolve_action room_id a =
    if a.target_room_id == pending_room_id then record a { target_room_id = room_id } else a

unfoldable pub resolve_room_id : ℕ → RoomEvent → RoomEvent
resolve_room_id room_id e = record e {
  actions = map (resolve_action room_id) e.actions;
  target_room_id = room_id;
}

-- `actions[current_action - 1].target_room_id`, the target of the action that was begun last.
unfoldable pub begun_target : RoomEvent → ℕ
begun_target e = elim (get_elem? e.actions (e.current_action - 1)) [
  | none ↦ 0
  | some a ↦ a.target_room_id
]

-- A byte that is no enumerator falls through the switch, and the function's end is reached.
unfoldable pub to_event_command : Command → Option ActionCommand
to_event_command cmd_create_room = some create_room
to_event_command cmd_join_room = some join_room
to_event_command cmd_leave_room = some leave_room
to_event_command cmd_send_message = some send_message
to_event_command cmd_load_message = some request_db_load_message
to_event_command (unnamed b) = none

pub data MainEventType : Type 0 where
  disconnect enable_epoll_out disable_epoll_out : MainEventType

pub record MainEvent : Type 0 where
  pub type : MainEventType
  pub fd : ℕ
