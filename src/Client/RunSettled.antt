-- ===== src/Client/RunSettled.antt =====
-- Packets keep the client settled, and so does all that it does (`handle_packet` and `run` of
-- client/src/Client.cpp).
use cpp_epoll_chat.Base.{
  ℕ, ◌≡◌, refl, List, [], ◌∷◌, Bool, true, Option, none, some, Bool-cases, inl, inr, ◌==◌, ◌&&◌,
}
use cpp_epoll_chat.Base.Bytes.{of_le}
use cpp_epoll_chat.Client.Loop.{Ready, input, packet, take_packet, handle, run_loop, run}
use cpp_epoll_chat.Client.Replies.{
  Notice, reply_of, notice_of, received, receive, handle_packet, handle_response, handle_broadcast,
  by_kind, take_reply, take_notice, is_in_room,
}
use cpp_epoll_chat.Client.Socket.{Arrival, Socket, recv_all}
use cpp_epoll_chat.Client.State.{Client, Line, new_client}
use cpp_epoll_chat.Protocol.{
  pkt_response, pkt_broadcast, packet_type_byte, header_size, response_size, broadcast_size,
}
use cpp_epoll_chat.Client.InputSettled.{handle_input-IsSettled}
use cpp_epoll_chat.Client.Settled.{IsSettled, show-IsSettled}
use cpp_epoll_chat.Client.ReplySettled.{print_prompt-IsSettled, take_reply-IsSettled}

take_notice-IsSettled :
    (n : Notice) (body : List ℕ) (c : Client) → IsSettled c → IsSettled (take_notice n body c)
unfolding take_notice
take_notice-IsSettled n body c h =
    elim (Bool-cases (is_in_room c.state && (n.room_id == c.room_id))) [
      | inl e ↦
          rw (e, take_notice) (record { at_rest = h.at_rest; waits = h.waits; flushed = h.flushed })
      | inr e ↦ rw (e, take_notice) h
    ]

-- A read keeps it settled if what is done with the bytes does.
received-IsSettled :
    (act : List ℕ → Client → Bool × Client) (c : Client) (r : Option (List ℕ) × List Arrival)
    → ((bytes : List ℕ) (x : Client) → IsSettled x → IsSettled (act bytes x).1)
    → IsSettled c
    → IsSettled (received act c r).1
received-IsSettled act c (none, rest) keeps h = record {
  at_rest = h.at_rest;
  waits = h.waits;
  flushed = h.flushed;
}
received-IsSettled act c (some bytes, rest) keeps h =
    keeps bytes _ (record { at_rest = h.at_rest; waits = h.waits; flushed = h.flushed })

receive-IsSettled :
    (n : ℕ) (act : List ℕ → Client → Bool × Client) (c : Client)
    → ((bytes : List ℕ) (x : Client) → IsSettled x → IsSettled (act bytes x).1)
    → IsSettled c
    → IsSettled (receive n act c).1
receive-IsSettled n act c keeps h = received-IsSettled act c (recv_all n c.sock.arrivals) keeps h

handle_response-IsSettled : (c : Client) → IsSettled c → IsSettled (handle_response c).1
unfolding handle_response
handle_response-IsSettled c h =
    let act : List ℕ → List ℕ → Client → Bool × Client =
      λ head body x. (true, take_reply (reply_of head) body x) in
    receive-IsSettled response_size (λ head. receive (reply_of head).body_len (act head)) c
      (λ head x settled.
        receive-IsSettled (reply_of head).body_len (act head) x
          (λ body y s. take_reply-IsSettled (reply_of head) body y s) settled)
      h

handle_broadcast-IsSettled : (c : Client) → IsSettled c → IsSettled (handle_broadcast c).1
unfolding handle_broadcast
handle_broadcast-IsSettled c h =
    let act : List ℕ → List ℕ → Client → Bool × Client =
      λ head body x. (true, take_notice (notice_of head) body x) in
    receive-IsSettled broadcast_size (λ head. receive (notice_of head).body_len (act head)) c
      (λ head x settled.
        receive-IsSettled (notice_of head).body_len (act head) x
          (λ body y s. take_notice-IsSettled (notice_of head) body y s) settled)
      h

by_kind-IsSettled : (kind : ℕ) (c : Client) → IsSettled c → IsSettled (by_kind kind c).1
unfolding by_kind
by_kind-IsSettled kind c h = elim (Bool-cases (kind == packet_type_byte pkt_response)) [
  | inl e ↦ rw (e, by_kind) (handle_response-IsSettled c h)
  | inr n ↦ elim (Bool-cases (kind == packet_type_byte pkt_broadcast)) [
    | inl e ↦ rw (n, by_kind) (rw e (handle_broadcast-IsSettled c h))
    | inr m ↦ rw (n, by_kind) (rw m (show-IsSettled _ c h))
  ]
]

handle-IsSettled : (r : Ready) (c : Client) → IsSettled c → IsSettled (handle r c)
unfolding handle take_packet handle_packet
handle-IsSettled (input buf) c h = handle_input-IsSettled buf c h
handle-IsSettled packet c h =
    let settled =
      receive-IsSettled header_size (λ head. by_kind (of_le head)) c
        (λ head x s. by_kind-IsSettled (of_le head) x s) h in
    elim (Bool-cases (handle_packet c).0) [
      | inl ok ↦ rw (ok, take_packet) settled
      | inr bad ↦
          rw (bad, take_packet)
            (record { at_rest = settled.at_rest; waits = settled.waits; flushed = settled.flushed })
    ]

run_loop-IsSettled :
    (events : List Ready) (c : Client) → IsSettled c → IsSettled (run_loop events c)
unfolding run_loop
run_loop-IsSettled [] c h = h
run_loop-IsSettled (r ∷ rest) c h = elim (Bool-cases c.running) [
  | inl on ↦ rw (on, run_loop) (run_loop-IsSettled rest (handle r c) (handle-IsSettled r c h))
  | inr off ↦ rw (off, run_loop) h
]

-- Whatever is typed and whatever arrives, at the end of a run of a new client: in the lobby it is in no
-- room and has no cursor; it awaits at most one answer, which fits where it is; and its buffer is empty.
pub run-IsSettled :
    (events : List Ready) (sock : Socket) (padding : ℕ) (shown : List Line)
    → sock.send_buf ≡ []
    → IsSettled (run events (new_client sock padding shown))
unfolding run new_client
run-IsSettled events sock padding shown empty = run_loop-IsSettled events _ (
    print_prompt-IsSettled _
      (record { at_rest = λ e. (refl, refl); waits = λ p e. cc; flushed = empty }))
