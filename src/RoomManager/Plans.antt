-- ===== src/RoomManager/Plans.antt =====
-- The plans of server/src/room/RoomManager.cpp: which actions carry out each command.
use cpp_epoll_chat.Base.{ℕ}
use cpp_epoll_chat.Protocol.{
  Command, cmd_create_room, cmd_join_room, cmd_leave_room, cmd_send_message, cmd_load_message,
  unnamed,
}
use cpp_epoll_chat.RoomEvent.{
  RoomEvent, ActionCommand, create_room, join_room, leave_room, send_message,
  request_db_create_room, request_db_load_message, save_message, request_leave_room, send_response,
  add_action, pending_room_id,
}

abbrev pub lobby_room_id : ℕ
lobby_room_id = 1

abbrev pub add : ActionCommand → ℕ → RoomEvent → RoomEvent
add cmd room_id e = (add_action cmd room_id e).1

unfoldable pub plan_create_room : RoomEvent → RoomEvent
unfolding add_action
plan_create_room e0 =
    let e1 = add request_db_create_room lobby_room_id e0 in
    let e2 = add create_room pending_room_id e1 in
    let e3 = add join_room pending_room_id e2 in
    let e4 = add request_leave_room lobby_room_id e3 in
    let e5 = add leave_room lobby_room_id e4 in
    let e6 = add send_response 0 e5 in record e6 { target_room_id = lobby_room_id }

unfoldable pub plan_join_room : RoomEvent → RoomEvent
unfolding add_action
plan_join_room e0 =
    let e1 = add join_room e0.target_room_id e0 in
    let e2 = add request_leave_room lobby_room_id e1 in
    let e3 = add leave_room lobby_room_id e2 in
    let e4 = add request_db_load_message e3.target_room_id e3 in add send_response 0 e4

unfoldable pub plan_leave_room : RoomEvent → RoomEvent
unfolding add_action
plan_leave_room e0 =
    let e1 = add join_room lobby_room_id e0 in
    let e2 = add request_leave_room e1.target_room_id e1 in
    let e3 = add leave_room e2.target_room_id e2 in
    let e4 = add send_response 0 e3 in record e4 { target_room_id = lobby_room_id }

unfoldable pub plan_send_message : RoomEvent → RoomEvent
unfolding add_action
plan_send_message e0 =
    let e1 = add send_message e0.target_room_id e0 in
    let e2 = add save_message e1.target_room_id e1 in add send_response 0 e2

unfoldable pub plan_load_message : RoomEvent → RoomEvent
unfolding add_action
plan_load_message e0 =
    let e1 = add request_db_load_message e0.target_room_id e0 in add send_response 0 e1

-- The switch of `dispatch_packet`: an unnamed command plans nothing.
unfoldable pub plan : Command → RoomEvent → RoomEvent
unfolding plan_create_room plan_join_room plan_leave_room plan_send_message plan_load_message
plan cmd_create_room e = plan_create_room e
plan cmd_join_room e = plan_join_room e
plan cmd_leave_room e = plan_leave_room e
plan cmd_send_message e = plan_send_message e
plan cmd_load_message e = plan_load_message e
plan (unnamed b) e = e
