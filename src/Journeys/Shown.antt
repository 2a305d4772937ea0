-- ===== src/Journeys/Shown.antt =====
-- A request that a worker rejects (server/src/room/RoomWorker.cpp), up to what its client shows
-- (`handle_response` of client/src/Client.cpp).
use cpp_epoll_chat.Base.{
  ℕ, ◌≤◌, ◌<◌, ◌≡◌, refl, ap, ◌∙◌, List, [], ◌++◌, length, drop, true, false, none, some, ◌==◌,
  if◌then◌else◌, arith,
}
use cpp_epoll_chat.Base.Lists.{drop-length_append}
use cpp_epoll_chat.Base.Map.{find}
use cpp_epoll_chat.Client.Arrivals.{ahead, with_arrivals}
use cpp_epoll_chat.Client.Packets.{handle_packet-response_packet}
use cpp_epoll_chat.Client.Replies.{handle_packet, take_reply, is_ok}
use cpp_epoll_chat.Client.Socket.{Arrival}
use cpp_epoll_chat.Client.State.{
  Client, show, print_prompt, request_refused, command_text, status_text,
}
use cpp_epoll_chat.Client.Stream.{coming}
use cpp_epoll_chat.Journeys.{asks, answered, status_packet}
use cpp_epoll_chat.Journeys.Rejected.{process_event_join_full}
use cpp_epoll_chat.Protocol.{Packet, Command, cmd_join_room, command_of, command_byte}
use cpp_epoll_chat.Result.{Result, room_full, code_byte, result_to_resresultcode}
use cpp_epoll_chat.Room.{SessionRef, Room}
use cpp_epoll_chat.RoomEvent.{RoomEvent, room_event}
use cpp_epoll_chat.RoomManager.Dispatch.{planned_event}
use cpp_epoll_chat.RoomWorker.{response_packet}
use cpp_epoll_chat.RoomWorker.Delivery.{stream_at, stream-send_packet}
use cpp_epoll_chat.RoomWorker.Process.{process_event}
use cpp_epoll_chat.World.{World, rooms_of}

-- The client has taken a refusal: it is where it was, awaits nothing, and shows why.
abbrev pub refused : Command → ℕ → Client → Client
refused cmd status c =
    print_prompt
      (show (request_refused (command_text cmd) (status_text status)) (record c { pending = none }))

take_reply-refused :
    (cmd : Command) (room_id status : ℕ) (c : Client)
    → c.pending ≡ some (record { command = cmd; room_id = room_id })
    → is_ok status ≡ false
    → take_reply (record { body_len = 0; command = cmd; status = status }) [] c
      ≡ refused cmd status c
unfolding take_reply
take_reply-refused cmd room_id status c awaits bad =
    rw (awaits, take_reply) (rw (same (command_byte cmd), bad) refl)
  where
    same : (n : ℕ) → (n == n) ≡ true
    same n = ground arith

-- What an answer adds to the bytes of the connection.
answered-bytes :
    (cmd : Command) (result : Result) (session : SessionRef) (w : World)
    → drop
        (length (stream_at w session.address))
        (stream_at (answered cmd result session w) session.address)
      ≡ status_packet cmd result w.padding
answered-bytes cmd result session w =
    ap (drop (length (stream_at w session.address)))
      (stream-send_packet session (status_packet cmd result w.padding) w session.address ∙ itself)
    ∙ drop-length_append (stream_at w session.address) (status_packet cmd result w.padding)
  where
    itself :
        stream_at w session.address
          ++ (if session.address == session.address then status_packet cmd result w.padding else [])
        ≡ stream_at w session.address ++ status_packet cmd result w.padding
    itself = ground arith

answered-shown :
    (cmd : Command) (result : Result) (session : SessionRef) (w : World) (room_id : ℕ)
    (later : List ℕ) (c : Client)
    → command_of (command_byte cmd) ≡ cmd
    → command_byte cmd < 256
    → is_ok (code_byte (result_to_resresultcode result)) ≡ false
    → c.pending ≡ some (record { command = cmd; room_id = room_id })
    → ahead c
      ≡ drop
          (length (stream_at w session.address))
          (stream_at (answered cmd result session w) session.address)
        ++ later
    → (rest : List Arrival) × (handle_packet c
        ≡ (true, refused cmd (code_byte (result_to_resresultcode result)) (with_arrivals rest c)))
      × (coming rest ≡ later)
unfolding response_packet room_event
answered-shown cmd result session w room_id later c known byte bad awaits lies =
    let e : RoomEvent = record (room_event cmd) { result_code = result } in
    let (rest, handled, left) =
      handle_packet-response_packet e w.padding later c (omega arith) known byte
        (lies ∙ ap (λ l. l ++ later) (answered-bytes cmd result session w)) in
    (
      rest,
      handled
          ∙ ap (λ (x : Client). (true, x))
              (take_reply-refused cmd room_id _ (with_arrivals rest c) awaits bad),
      left,
    )

-- A client asks to join a room that is full. Once it has, in any portions, the bytes that the worker's
-- handling of the request added to its connection, it reads them as one packet, shows that the room is
-- full, and is where it was, awaiting nothing; what follows these bytes is left.
pub process_event_join_full-shown :
    (k : ℕ) (p : Packet) (session : SessionRef) (w : World) (r : Room) (later : List ℕ) (c : Client)
    → find p.request.room_id (rooms_of k w) ≡ some r
    → r.max_sessions ≤ r.current_sessions
    → c.pending ≡ some (record { command = cmd_join_room; room_id = p.request.room_id })
    → ahead c
      ≡ drop (length (stream_at w session.address)) (
          stream_at
            (process_event k (planned_event (asks cmd_join_room p) session) w)
            session.address)
        ++ later
    → (rest : List Arrival) × (handle_packet c ≡ (
      true,
      refused cmd_join_room (code_byte (result_to_resresultcode room_full)) (with_arrivals rest c),
    ))
      × (coming rest ≡ later)
unfolding command_of command_byte code_byte result_to_resresultcode
process_event_join_full-shown k p session w r later c e full awaits lies =
    let same = process_event_join_full k p session w r e full in
    answered-shown cmd_join_room room_full session w p.request.room_id later c refl (omega arith)
      refl awaits
      (lies
        ∙ ap
            (λ (x : World).
              drop (length (stream_at w session.address)) (stream_at x session.address) ++ later)
            same)
