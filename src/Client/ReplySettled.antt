-- ===== src/Client/ReplySettled.antt =====
-- What an answer leaves of the client (`handle_response` of client/src/Client.cpp).
use cpp_epoll_chat.Base.{
  ℕ, ◌≡◌, refl, List, [], ◌∷◌, none, Option-cases, Bool-cases, inl, inr, length, ltb, take, ◌==◌,
}
use cpp_epoll_chat.Base.Bytes.{of_le}
use cpp_epoll_chat.Client.Replies.{
  Reply, take_reply, succeed, enter_created, enter_joined, show_loaded, print_history, moved,
  same_command, is_ok,
}
use cpp_epoll_chat.Client.State.{Client, in_room, Line, show, print_prompt}
use cpp_epoll_chat.Message.{parse}
use cpp_epoll_chat.Protocol.{
  Command, cmd_create_room, cmd_join_room, cmd_leave_room, cmd_send_message, cmd_load_message,
  unnamed,
}
use cpp_epoll_chat.Client.Settled.{Waits, IsSettled, show-IsSettled}

-- A client in a room that awaits nothing has only its buffer to answer for.
abbrev Roams : Client → Type 0
Roams c = (c.state ≡ in_room) × (c.pending ≡ none) × (c.sock.send_buf ≡ [])

Roams-IsSettled : (c : Client) → Roams c → IsSettled c
Roams-IsSettled c (here, idle, flushed) = record {
  at_rest = λ e. cc;
  waits = λ p e. cc;
  flushed = flushed;
}

print_history-Roams : (body : List ℕ) (c : Client) → Roams c → Roams (print_history body c).1
unfolding print_history
print_history-Roams body c h = elim (Option-cases (parse body)) [
  | inl e ↦ rw (e, print_history) h
  | inr ([], e) ↦ rw (e, print_history) h
  | inr (m ∷ ms, e) ↦ rw (e, print_history) h
]

enter_created-IsSettled :
    (body : List ℕ) (c : Client) → IsSettled c → c.pending ≡ none → IsSettled (enter_created body c)
unfolding enter_created
enter_created-IsSettled body c h idle = elim (Bool-cases (ltb (length body) 8)) [
  | inl e ↦ rw (e, enter_created) (show-IsSettled _ c h)
  | inr e ↦
      rw (e, enter_created)
        (show-IsSettled _ _
          (Roams-IsSettled (moved in_room (of_le (take 8 body)) c) (refl, idle, h.flushed)))
]

enter_joined-IsSettled :
    (room_id : ℕ) (body : List ℕ) (c : Client)
    → IsSettled c
    → c.pending ≡ none
    → IsSettled (enter_joined room_id body c)
unfolding enter_joined
enter_joined-IsSettled room_id body c h idle =
    let c1 = show (Line.joined room_id) (moved in_room room_id c) in
    let settled = Roams-IsSettled _ (print_history-Roams body c1 (refl, idle, h.flushed)) in
    elim (Option-cases (print_history body c1).0) [
      | inl e ↦ rw (e, enter_joined) (show-IsSettled _ _ settled)
      | inr (n, e) ↦ rw (e, enter_joined) settled
    ]

show_loaded-IsSettled :
    (body : List ℕ) (c : Client)
    → IsSettled c
    → c.state ≡ in_room
    → c.pending ≡ none
    → IsSettled (show_loaded body c)
unfolding show_loaded
show_loaded-IsSettled body c h here idle =
    let settled = Roams-IsSettled _ (print_history-Roams body c (here, idle, h.flushed)) in
    elim (Option-cases (print_history body c).0) [
      | inl e ↦ rw (e, show_loaded) (show-IsSettled _ _ settled)
      | inr (n, e) ↦ elim (Bool-cases (n == 0)) [
        | inl z ↦ rw (e, show_loaded) (rw z (show-IsSettled _ _ settled))
        | inr m ↦ rw (e, show_loaded) (rw m settled)
      ]
    ]

succeed-IsSettled :
    (cmd : Command) (room_id : ℕ) (body : List ℕ) (c : Client)
    → IsSettled c
    → Waits c.state c.room_id cmd room_id
    → c.pending ≡ none
    → IsSettled (succeed cmd room_id body c)
unfolding succeed
succeed-IsSettled cmd_create_room room_id body c h w idle = enter_created-IsSettled body c h idle
succeed-IsSettled cmd_join_room room_id body c h w idle =
    enter_joined-IsSettled room_id body c h idle
succeed-IsSettled cmd_leave_room room_id body c h w idle = record {
  at_rest = λ e. (refl, refl);
  waits = λ p e. cc;
  flushed = h.flushed;
}
succeed-IsSettled cmd_send_message room_id body c h w idle = h
succeed-IsSettled cmd_load_message room_id body c h w idle = show_loaded-IsSettled body c h w.0 idle
succeed-IsSettled (unnamed b) room_id body c h w idle = h

pub print_prompt-IsSettled : (c : Client) → IsSettled c → IsSettled (print_prompt c)
unfolding print_prompt
print_prompt-IsSettled c h = show-IsSettled _ c h

pub take_reply-IsSettled :
    (r : Reply) (body : List ℕ) (c : Client) → IsSettled c → IsSettled (take_reply r body c)
unfolding take_reply
take_reply-IsSettled r body c h = elim (Option-cases c.pending) [
  | inl e ↦ rw (e, take_reply) (show-IsSettled _ c h)
  | inr (p, e) ↦
      let c' : Client = record c { pending = none } in
      let settled : IsSettled c' = record {
        at_rest = h.at_rest;
        waits = λ q z. cc;
        flushed = h.flushed;
      } in
      elim (Bool-cases (same_command p.command r.command)) [
        | inl same ↦ elim (Bool-cases (is_ok r.status)) [
          | inl ok ↦
              rw (e, take_reply)
                (rw same (
                  rw ok (
                    print_prompt-IsSettled _
                      (succeed-IsSettled p.command p.room_id body c' settled (h.waits p e) refl))))
          | inr bad ↦
              rw (e, take_reply)
                (rw same (rw bad (print_prompt-IsSettled _ (show-IsSettled _ c' settled))))
        ]
        | inr other ↦ rw (e, take_reply) (rw other (show-IsSettled _ c' settled))
      ]
]
