-- ===== src/Client/InputSettled.antt =====
-- Input keeps the client settled (`handle_input` of client/src/Client.cpp).
use cpp_epoll_chat.Base.{
  ℕ, ◌≡◌, ◌≢◌, refl, List, [], ◌∷◌, true, false, Option-cases, Bool-cases, inl, inr, ◌⊎◌, ◌==◌,
  arith,
}
use cpp_epoll_chat.Client.Requests.{
  send_request, requests, validate_room_id, run_create, run_join, run_exit, run_load, run_leave,
  lobby_input, room_input, run_line, handle_input, lobby_room_id,
}
use cpp_epoll_chat.Client.State.{Client, ClientState, in_lobby, in_room, Line, show}
use cpp_epoll_chat.Client.Text.{same_bytes, codes, take_word, read_line}
use cpp_epoll_chat.Decimal.{read_int64}
use cpp_epoll_chat.Protocol.{
  Command, cmd_create_room, cmd_join_room, cmd_leave_room, cmd_send_message, cmd_load_message,
}
use cpp_epoll_chat.Client.Settled.{Waits, IsSettled, show-IsSettled, send_request-IsSettled}

requests-IsSettled :
    (cmd : Command) (room_id : ℕ) (body : List ℕ) (c : Client)
    → IsSettled c
    → Waits c.state c.room_id cmd room_id
    → IsSettled (requests cmd room_id body c)
requests-IsSettled cmd room_id body c h w =
    let settled = send_request-IsSettled cmd room_id body c h w in
    elim (Bool-cases (send_request cmd room_id body c).0) [
      | inl ok ↦ rw ok settled
      | inr bad ↦ rw bad (show-IsSettled _ _ settled)
    ]

run_exit-IsSettled : (c : Client) → IsSettled c → IsSettled (run_exit c)
unfolding run_exit
run_exit-IsSettled c h = record { at_rest = h.at_rest; waits = h.waits; flushed = h.flushed }

valid_room_id :
    (room_id : ℕ) (c : Client)
    → (validate_room_id room_id c).0 ≡ true
    → (room_id ≢ 0) × (room_id ≢ 1)
unfolding validate_room_id
valid_room_id room_id c h = ground arith

validate_room_id_cases :
    (room_id : ℕ) (c : Client)
    → ((validate_room_id room_id c).1 ≡ c)
      ⊎ ((line : Line) × ((validate_room_id room_id c).0 ≡ false)
          × ((validate_room_id room_id c).1 ≡ show line c))
unfolding validate_room_id
validate_room_id_cases room_id c = elim (Bool-cases (room_id == 0)) [
  | inl z ↦ rw (z, validate_room_id) (inr (_, refl, refl))
  | inr n ↦ elim (Bool-cases (room_id == lobby_room_id)) [
    | inl l ↦ rw (n, validate_room_id) (rw l (inr (_, refl, refl)))
    | inr o ↦ rw (n, validate_room_id) (rw o (inl refl))
  ]
]

run_join-IsSettled :
    (args : List ℕ) (c : Client) → IsSettled c → c.state ≡ in_lobby → IsSettled (run_join args c)
unfolding run_join
run_join-IsSettled args c h here = elim (Option-cases (read_int64 args)) [
  | inl e ↦ rw (e, run_join) (show-IsSettled _ c h)
  | inr (room_id, e) ↦ elim (Bool-cases (validate_room_id room_id c).0) [
    | inl ok ↦ elim (validate_room_id_cases room_id c) [
      | inl same ↦
          rw (e, run_join)
            (rw (ok, same)
              (requests-IsSettled cmd_join_room room_id [] c h
                (here, (valid_room_id room_id c ok).0, (valid_room_id room_id c ok).1)))
      | inr (line, bad, _) ↦ cc
    ]
    | inr bad ↦ elim (validate_room_id_cases room_id c) [
      | inl same ↦ rw (e, run_join) (rw (bad, same) h)
      | inr (line, _, shown) ↦ rw (e, run_join) (rw (bad, shown) (show-IsSettled line c h))
    ]
  ]
]

lobby_input-IsSettled :
    (cmd args : List ℕ) (c : Client)
    → IsSettled c
    → c.state ≡ in_lobby
    → IsSettled (lobby_input cmd args c)
unfolding lobby_input run_create
lobby_input-IsSettled cmd args c h here = elim (Bool-cases (same_bytes cmd (codes "/create"))) [
  | inl e ↦ rw (e, lobby_input) (requests-IsSettled cmd_create_room 0 [] c h here)
  | inr n ↦ elim (Bool-cases (same_bytes cmd (codes "/join"))) [
    | inl e ↦ rw (n, lobby_input) (rw e (run_join-IsSettled args c h here))
    | inr m ↦ elim (Bool-cases (same_bytes cmd (codes "/exit"))) [
      | inl e ↦ rw (n, lobby_input) (rw m (rw e (run_exit-IsSettled c h)))
      | inr o ↦ rw (n, lobby_input) (rw m (rw o (show-IsSettled _ c h)))
    ]
  ]
]

room_input-IsSettled :
    (line cmd : List ℕ) (c : Client)
    → IsSettled c
    → c.state ≡ in_room
    → IsSettled (room_input line cmd c)
unfolding room_input run_load run_leave
room_input-IsSettled line cmd c h here = elim (Bool-cases (same_bytes cmd (codes "/load"))) [
  | inl e ↦ rw (e, room_input) (requests-IsSettled cmd_load_message c.room_id _ c h (here, refl))
  | inr n ↦ elim (Bool-cases (same_bytes cmd (codes "/leave"))) [
    | inl e ↦
        rw (n, room_input) (rw e (requests-IsSettled cmd_leave_room c.room_id [] c h (here, refl)))
    | inr m ↦ elim (Bool-cases (same_bytes cmd (codes "/exit"))) [
      | inl e ↦ rw (n, room_input) (rw m (rw e (run_exit-IsSettled c h)))
      | inr o ↦
          let settled = send_request-IsSettled cmd_send_message c.room_id line c h (here, refl) in
          elim (Bool-cases (send_request cmd_send_message c.room_id line c).0) [
            | inl ok ↦ rw (n, room_input) (rw m (rw o (rw ok settled)))
            | inr bad ↦ rw (n, room_input) (rw m (rw o (rw bad (show-IsSettled _ _ settled))))
          ]
    ]
  ]
]

run_line-IsSettled :
    (state : ClientState) (line : List ℕ) (c : Client)
    → c.state ≡ state
    → IsSettled c
    → IsSettled (run_line state line c)
unfolding run_line
run_line-IsSettled in_lobby [] c here h = h
run_line-IsSettled in_room [] c here h = h
run_line-IsSettled in_lobby (b ∷ bs) c here h =
    lobby_input-IsSettled (take_word (b ∷ bs)).0 (take_word (b ∷ bs)).1 c h here
run_line-IsSettled in_room (b ∷ bs) c here h =
    room_input-IsSettled (b ∷ bs) (take_word (b ∷ bs)).0 c h here

pub handle_input-IsSettled :
    (buf : List ℕ) (c : Client) → IsSettled c → IsSettled (handle_input buf c)
unfolding handle_input
handle_input-IsSettled buf c h = elim (Option-cases c.pending) [
  | inl e ↦ rw (e, handle_input) (run_line-IsSettled c.state (read_line buf) c refl h)
  | inr (p, e) ↦ rw (e, handle_input) (show-IsSettled _ c h)
]
