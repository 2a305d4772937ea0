-- ===== src/Client/State.antt =====
-- The state of the client (client/src/Client.h), and what it shows.
use Prim.Native.String.{String}
use cpp_epoll_chat.Base.{ℕ, List, [], ◌∷◌, ◌++◌, Bool, false, Option, none, ◌==◌, if◌then◌else◌}
use cpp_epoll_chat.Client.Socket.{Socket}
use cpp_epoll_chat.Message.{Message}
use cpp_epoll_chat.Protocol.{
  Command, cmd_create_room, cmd_join_room, cmd_leave_room, cmd_send_message, cmd_load_message,
  unnamed,
}
use cpp_epoll_chat.Result.{ResponseResultCode, code_byte}

pub data ClientState : Type 0 where
  in_lobby in_room : ClientState

pub record Pending : Type 0 where
  pub command : Command
  pub room_id : ℕ

-- The texts of a status byte: one that is no enumerator has a text of its own.
unfoldable pub status_text : ℕ → String
unfolding code_byte
status_text s =
    if s == code_byte ResponseResultCode.success
    then "성공"
    else if s == code_byte ResponseResultCode.room_not_found
    then "존재하지 않는 방입니다"
    else if s == code_byte ResponseResultCode.room_already_exists
    then "이미 존재하는 방 번호입니다"
    else if s == code_byte ResponseResultCode.room_full
    then "방이 가득 찼습니다"
    else if s == code_byte ResponseResultCode.user_not_found
    then "해당 방에서 유저를 찾을 수 없습니다"
    else if s == code_byte ResponseResultCode.db_not_found
    then "데이터를 찾을 수 없습니다"
    else if s == code_byte ResponseResultCode.db_error
    then "데이터베이스 오류가 발생했습니다"
    else if s == code_byte ResponseResultCode.db_duplicate
    then "이미 존재하는 데이터입니다"
    else if s == code_byte ResponseResultCode.no_result
    then "처리 결과 없음"
    else "알 수 없는 결과"

unfoldable pub command_text : Command → String
command_text cmd_create_room = "방 생성"
command_text cmd_join_room = "방 입장"
command_text cmd_leave_room = "방 퇴장"
command_text cmd_send_message = "메시지 전송"
command_text cmd_load_message = "과거 메시지 요청"
command_text (unnamed b) = "알 수 없는 명령"

-- What is written to the terminal, one constructor for each text, with the values that it shows. The time
-- of day of a message is the terminal's matter.
pub data Line : Type 0 where
  connecting : ℕ → Line
  connect_failed connected not_connected : Line
  lobby_prompt : Line
  room_prompt : ℕ → Line
  room_id_zero room_id_lobby : Line
  request_failed message_failed join_usage leaving lobby_commands_only : Line
  still_waiting : String → Line
  history_begins : ℕ → Line
  history : Message → Line
  history_ends : Line
  server_gone : Line
  unknown_packet : ℕ → Line
  response_unasked : Line
  response_other : String → String → Line
  request_refused : String → String → Line
  room_id_missing : Line
  created joined left : ℕ → Line
  join_history_bad load_history_bad no_more_history : Line
  says : ℕ → List ℕ → Line
  came went : ℕ → Line

-- `shown` is all that was written so far, and `padding` what the memory holds in a packet's padding.
pub record Client : Type 0 where
  pub sock : Socket
  pub state : ClientState
  pub room_id : ℕ
  pub oldest_message_id : ℕ
  pub running : Bool
  pub pending : Option Pending
  pub shown : List Line
  pub padding : ℕ

abbrev pub show : Line → Client → Client
show line c = record c { shown = c.shown ++ (line ∷ []) }

abbrev pub prompt_line : ClientState → ℕ → Line
prompt_line in_lobby room_id = lobby_prompt
prompt_line in_room room_id = room_prompt room_id

unfoldable pub print_prompt : Client → Client
print_prompt c = show (prompt_line c.state c.room_id) c

-- A client whose connection is open; without one, `run` says so and returns.
unfoldable pub new_client : Socket → ℕ → List Line → Client
new_client sock padding shown = record {
  sock = sock;
  state = in_lobby;
  room_id = 0;
  oldest_message_id = 0;
  running = false;
  pending = none;
  shown = shown;
  padding = padding;
}
