-- ===== src/Client/Replies.antt =====
-- The packets that the client receives (client/src/Client.cpp).
use cpp_epoll_chat.Base.{
  ℕ, List, [], ◌∷◌, ◌++◌, length, take, drop, Bool, true, false, Option, none, some, ◌==◌, ltb,
  if◌then◌else◌, ◌&&◌,
}
use cpp_epoll_chat.Base.Bytes.{of_le}
use cpp_epoll_chat.Client.Socket.{Arrival, recv_all}
use cpp_epoll_chat.Client.State.{
  Client, ClientState, in_lobby, in_room, Line, show, print_prompt, command_text, status_text,
  history_begins, history, history_ends, unknown_packet, response_unasked, response_other,
  request_refused, room_id_missing, created, joined, left, join_history_bad, load_history_bad,
  no_more_history, says, came, went,
}
use cpp_epoll_chat.Message.{Message, parse}
use cpp_epoll_chat.Protocol.{
  Command, pkt_response, pkt_broadcast, packet_type_byte, cmd_create_room, cmd_join_room,
  cmd_leave_room, cmd_send_message, cmd_load_message, unnamed, command_of, command_byte,
  evt_message, evt_user_join, evt_user_leave, event_byte, header_size, response_size,
  broadcast_size,
}
use cpp_epoll_chat.Result.{ResponseResultCode, code_byte}

-- A response and a broadcast as they arrive: the status and the event may be any byte.
pub record Reply : Type 0 where
  pub body_len : ℕ
  pub command : Command
  pub status : ℕ

pub record Notice : Type 0 where
  pub sender_id : ℕ
  pub room_id : ℕ
  pub body_len : ℕ
  pub event : ℕ

unfoldable pub reply_of : List ℕ → Reply
reply_of bs = record {
  body_len = of_le (take 4 bs);
  command = command_of (of_le (take 1 (drop 4 bs)));
  status = of_le (take 1 (drop 5 bs));
}

unfoldable pub notice_of : List ℕ → Notice
notice_of bs = record {
  sender_id = of_le (take 8 bs);
  room_id = of_le (take 8 (drop 8 bs));
  body_len = of_le (take 4 (drop 16 bs));
  event = of_le (take 1 (drop 20 bs));
}

-- The messages from the last to the first.
unfoldable pub history_lines : List Message → List Line
history_lines [] = []
history_lines (m ∷ ms) = history_lines ms ++ (history m ∷ [])

-- The id of the last message.
unfoldable pub back_id : ℕ → List Message → ℕ
back_id id [] = id
back_id id (m ∷ ms) = back_id m.id ms

-- `print_history`: `none` is -1.
unfoldable pub print_history : List ℕ → Client → Option ℕ × Client
unfolding history_lines back_id
print_history body c = elim (parse body) [
  | none ↦ (none, c)
  | some ms ↦ elim ms [
    | [] ↦ (some 0, c)
    | m ∷ rest ↦ (
      some (length (m ∷ rest)),
      record c {
        shown =
            c.shown
            ++ (history_begins (length (m ∷ rest))
                ∷ (history_lines (m ∷ rest) ++ (history_ends ∷ [])));
        oldest_message_id = back_id m.id rest;
      },
    )
  ]
]

abbrev pub same_command : Command → Command → Bool
same_command a b = command_byte a == command_byte b

abbrev pub is_ok : ℕ → Bool
is_ok status = status == code_byte ResponseResultCode.success

-- A client in another room, or in none: the cursor is reset.
abbrev pub moved : ClientState → ℕ → Client → Client
moved state room_id c = record c { state = state; room_id = room_id; oldest_message_id = 0 }

unfoldable pub enter_created : List ℕ → Client → Client
enter_created body c =
    if ltb (length body) 8
    then show room_id_missing c
    else show (created (of_le (take 8 body))) (moved in_room (of_le (take 8 body)) c)

-- What is shown behind a page that did not parse, and behind an empty one that was asked for.
abbrev pub after_join : Option ℕ × Client → Client
after_join (none, c) = show join_history_bad c
after_join (some n, c) = c

abbrev pub after_load : Option ℕ × Client → Client
after_load (none, c) = show load_history_bad c
after_load (some n, c) = if n == 0 then show no_more_history c else c

unfoldable pub enter_joined : ℕ → List ℕ → Client → Client
enter_joined room_id body c =
    after_join (print_history body (show (joined room_id) (moved in_room room_id c)))

unfoldable pub show_loaded : List ℕ → Client → Client
show_loaded body c = after_load (print_history body c)

-- The switch of `handle_response`.
unfoldable pub succeed : Command → ℕ → List ℕ → Client → Client
unfolding enter_created enter_joined show_loaded
succeed cmd_create_room room_id body c = enter_created body c
succeed cmd_join_room room_id body c = enter_joined room_id body c
succeed cmd_leave_room room_id body c = moved in_lobby 0 (show (left c.room_id) c)
succeed cmd_send_message room_id body c = c
succeed cmd_load_message room_id body c = show_loaded body c
succeed (unnamed b) room_id body c = c

-- What a response does, once it has arrived whole.
unfoldable pub take_reply : Reply → List ℕ → Client → Client
unfolding succeed
take_reply r body c = elim c.pending [
  | none ↦ show response_unasked c
  | some p ↦
      let c' : Client = record c { pending = none } in
      if same_command p.command r.command
      then (if is_ok r.status
          then print_prompt (succeed p.command p.room_id body c')
          else print_prompt
              (show (request_refused (command_text p.command) (status_text r.status)) c'))
      else show (response_other (command_text p.command) (command_text r.command)) c'
]

abbrev pub notice_lines : Notice → List ℕ → List Line
notice_lines n body =
    if n.event == event_byte evt_message
    then says n.sender_id body ∷ []
    else if n.event == event_byte evt_user_join
    then came n.sender_id ∷ []
    else if n.event == event_byte evt_user_leave
    then went n.sender_id ∷ []
    else []

abbrev pub is_in_room : ClientState → Bool
is_in_room in_lobby = false
is_in_room in_room = true

-- What a broadcast does, once it has arrived whole: one for another room is dropped.
unfoldable pub take_notice : Notice → List ℕ → Client → Client
take_notice n body c =
    if is_in_room c.state && (n.room_id == c.room_id)
    then record c { shown = c.shown ++ notice_lines n body }
    else c

-- What is done with the bytes of a read. `false`: the connection is given up.
abbrev pub received :
    (List ℕ → Client → Bool × Client) → Client → Option (List ℕ) × List Arrival → Bool × Client
received act c (none, rest) = (false, record c { sock = record (c.sock) { arrivals = rest } })
received act c (some bytes, rest) =
    act bytes (record c { sock = record (c.sock) { arrivals = rest } })

abbrev pub receive : ℕ → (List ℕ → Client → Bool × Client) → Client → Bool × Client
receive n act c = received act c (recv_all n c.sock.arrivals)

unfoldable pub handle_response : Client → Bool × Client
unfolding take_reply
handle_response =
    receive response_size (λ head.
      receive (reply_of head).body_len (λ body c. (true, take_reply (reply_of head) body c)))

unfoldable pub handle_broadcast : Client → Bool × Client
unfolding take_notice
handle_broadcast = receive broadcast_size (λ head.
    receive (notice_of head).body_len (λ body c. (true, take_notice (notice_of head) body c)))

-- The switch of `handle_packet`.
unfoldable pub by_kind : ℕ → Client → Bool × Client
unfolding handle_response handle_broadcast
by_kind kind c =
    if kind == packet_type_byte pkt_response
    then handle_response c
    else if kind == packet_type_byte pkt_broadcast
    then handle_broadcast c
    else (false, show (unknown_packet kind) c)

unfoldable pub handle_packet : Client → Bool × Client
unfolding by_kind
handle_packet = receive header_size (λ head. by_kind (of_le head))
