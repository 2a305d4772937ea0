-- ===== src/Client/Requests.antt =====
-- The client's input: commands, and the requests that they send (client/src/Client.cpp).
use cpp_epoll_chat.Base.{
  ℕ, ◌%◌, ◌^◌, List, [], ◌∷◌, length, Bool, true, false, none, some, ◌==◌, if◌then◌else◌,
}
use cpp_epoll_chat.Base.Bytes.{le_bytes}
use cpp_epoll_chat.Client.Socket.{Socket, pack, flush}
use cpp_epoll_chat.Client.State.{
  Client, ClientState, in_lobby, in_room, show, command_text, room_id_zero, room_id_lobby,
  request_failed, message_failed, join_usage, leaving, lobby_commands_only, still_waiting,
}
use cpp_epoll_chat.Client.Text.{codes, same_bytes, take_word, read_line}
use cpp_epoll_chat.Decimal.{read_int64}
use cpp_epoll_chat.Protocol.{
  Command, Request, pkt_request, packet_type_byte, cmd_create_room, cmd_join_room, cmd_leave_room,
  cmd_send_message, cmd_load_message, header_bytes, request_bytes,
}

-- The lobby's room, as the client knows it.
abbrev pub lobby_room_id : ℕ
lobby_room_id = 1

unfoldable pub validate_room_id : ℕ → Client → Bool × Client
validate_room_id room_id c =
    if room_id == 0
    then (false, show room_id_zero c)
    else if room_id == lobby_room_id
    then (false, show room_id_lobby c)
    else (true, c)

-- The header, the request and the body, as they are packed.
unfoldable pub packed_request : Command → ℕ → List ℕ → ℕ → Socket → Socket
unfolding pack
packed_request cmd room_id body padding s =
    let s1 = pack (header_bytes (record { type = packet_type_byte pkt_request })) s in
    let req : Request = record {
      room_id = room_id;
      body_len = length body % 2 ^ 32;
      command = cmd;
    } in
    let s2 = pack (request_bytes padding req) s1 in
    elim body [ [] ↦ s2 | b ∷ bs ↦ pack (b ∷ bs) s2 ]

unfoldable pub send_request : Command → ℕ → List ℕ → Client → Bool × Client
send_request cmd room_id body c =
    let (ok, sock) = flush (packed_request cmd room_id body c.padding c.sock) in
    if ok
    then (
      true,
      record c { sock = sock; pending = some (record { command = cmd; room_id = room_id }) },
    )
    else (false, record c { sock = sock })

-- A command that says so if its request could not be sent.
abbrev pub requests : Command → ℕ → List ℕ → Client → Client
requests cmd room_id body c =
    let (ok, c') = send_request cmd room_id body c in if ok then c' else show request_failed c'

unfoldable pub run_create : Client → Client
run_create c = requests cmd_create_room 0 [] c

unfoldable pub run_join : List ℕ → Client → Client
unfolding validate_room_id
run_join args c = elim (read_int64 args) [
  | none ↦ show join_usage c
  | some room_id ↦
      let (valid, c') = validate_room_id room_id c in
      if valid then requests cmd_join_room room_id [] c' else c'
]

unfoldable pub run_exit : Client → Client
run_exit c = record (show leaving c) { running = false }

unfoldable pub run_load : Client → Client
run_load c = requests cmd_load_message c.room_id (le_bytes 8 c.oldest_message_id) c

unfoldable pub run_leave : Client → Client
run_leave c = requests cmd_leave_room c.room_id [] c

-- The commands of the lobby, and of a room: there, any other input is a message.
unfoldable pub lobby_input : List ℕ → List ℕ → Client → Client
unfolding run_create run_join run_exit
lobby_input cmd args c =
    if same_bytes cmd (codes "/create")
    then run_create c
    else if same_bytes cmd (codes "/join")
    then run_join args c
    else if same_bytes cmd (codes "/exit")
    then run_exit c
    else show lobby_commands_only c

unfoldable pub room_input : List ℕ → List ℕ → Client → Client
unfolding run_load run_leave run_exit
room_input input cmd c =
    if same_bytes cmd (codes "/load")
    then run_load c
    else if same_bytes cmd (codes "/leave")
    then run_leave c
    else if same_bytes cmd (codes "/exit")
    then run_exit c
    else (let (ok, c') = send_request cmd_send_message c.room_id input c in
        if ok then c' else show message_failed c')

-- The line that was read, in the state that the client is in.
unfoldable pub run_line : ClientState → List ℕ → Client → Client
unfolding lobby_input room_input
run_line state [] c = c
run_line in_lobby (b ∷ bs) c = let (cmd, args) = take_word (b ∷ bs) in lobby_input cmd args c
run_line in_room (b ∷ bs) c = room_input (b ∷ bs) (take_word (b ∷ bs)).0 c

-- `handle_input`, for what `read` brought.
unfoldable pub handle_input : List ℕ → Client → Client
unfolding run_line
handle_input buf c = elim c.pending [
  | some p ↦ show (still_waiting (command_text p.command)) c
  | none ↦ run_line c.state (read_line buf) c
]
