-- ===== src/Client/Settled.antt =====
-- What holds of the client between two events (client/src/Client.cpp): where it is, and what it waits for.
use cpp_epoll_chat.Base.{ℕ, ◌≡◌, ◌≢◌, ◌∙◌, sym, subst, List, [], Option, some, inl, inr, arith}
use cpp_epoll_chat.Client.Requests.{send_request}
use cpp_epoll_chat.Client.Sending.{send_request_lem}
use cpp_epoll_chat.Client.State.{Client, ClientState, in_lobby, in_room, Pending, Line, show}
use cpp_epoll_chat.Protocol.{
  Command, cmd_create_room, cmd_join_room, cmd_leave_room, cmd_send_message, cmd_load_message,
  unnamed,
}

-- What may be awaited in a state: a room is created or joined from the lobby, and all else is asked for
-- the room that the client is in.
abbrev pub Waits : ClientState → ℕ → Command → ℕ → Type 0
Waits state here cmd_create_room there = state ≡ in_lobby
Waits state here cmd_join_room there = (state ≡ in_lobby) × (there ≢ 0) × (there ≢ 1)
Waits state here cmd_leave_room there = (state ≡ in_room) × (there ≡ here)
Waits state here cmd_send_message there = (state ≡ in_room) × (there ≡ here)
Waits state here cmd_load_message there = (state ≡ in_room) × (there ≡ here)
Waits state here (unnamed b) there = ⊥

-- In the lobby the client is in no room and has no cursor; what it awaits fits where it is; and no bytes
-- are left in its buffer.
pub record IsSettled (c : Client) : Type 0 where
  pub at_rest : c.state ≡ in_lobby → (c.room_id ≡ 0) × (c.oldest_message_id ≡ 0)
  pub waits : (p : Pending) → c.pending ≡ some p → Waits c.state c.room_id p.command p.room_id
  pub flushed : c.sock.send_buf ≡ []

pub show-IsSettled : (line : Line) (c : Client) → IsSettled c → IsSettled (show line c)
show-IsSettled line c h = record { at_rest = h.at_rest; waits = h.waits; flushed = h.flushed }

some_injective : (p q : Pending) → ◌≡◌ {A = Option Pending} (some p) (some q) → p ≡ q
some_injective p q e = cc

send_request_keeps :
    (cmd : Command) (room_id : ℕ) (body : List ℕ) (c : Client)
    → let c' = (send_request cmd room_id body c).1 in
      (c'.state ≡ c.state) × (c'.room_id ≡ c.room_id) × (c'.oldest_message_id ≡ c.oldest_message_id)
unfolding send_request
send_request_keeps cmd room_id body c = ground arith

pub send_request-IsSettled :
    (cmd : Command) (room_id : ℕ) (body : List ℕ) (c : Client)
    → IsSettled c
    → Waits c.state c.room_id cmd room_id
    → IsSettled (send_request cmd room_id body c).1
send_request-IsSettled cmd room_id body c h w =
    let r = send_request cmd room_id body c in
    let (state, room, oldest) = send_request_keeps cmd room_id body c in
    let (flushed, ends) = send_request_lem cmd room_id body c h.flushed in
    record {
      at_rest = λ e. (room ∙ (h.at_rest (sym state ∙ e)).0, oldest ∙ (h.at_rest (sym state ∙ e)).1);
      waits = λ p e. elim ends [
        | inl (_, _, now) ↦
            let asked : Pending = record { command = cmd; room_id = room_id } in
            let same : asked ≡ p = some_injective asked p (sym now ∙ e) in
            rw (state, room)
              (subst (λ (q : Pending). Waits c.state c.room_id q.command q.room_id) same w)
        | inr (_, _, _, _, _, _, still) ↦ rw (state, room) (h.waits p (sym still ∙ e))
      ];
      flushed = flushed;
    }
