-- ===== src/Client/History.antt =====
-- What a client shows and remembers of the messages that it is sent (`print_history` and
-- `handle_response` of client/src/Client.cpp).
use mathlib.Core.List.{reverse, reverse-cons, map-append}
use cpp_epoll_chat.Base.{
  ℕ, suc, ◌^◌, ◌<◌, ◌≡◌, refl, sym, subst, ap, ◌∙◌, List, [], ◌∷◌, ◌++◌, append-nil, map, length,
  All, some, none, arith,
}
use cpp_epoll_chat.Client.Replies.{
  Reply, take_reply, succeed, enter_joined, show_loaded, after_join, after_load, print_history,
  history_lines, back_id, moved,
}
use cpp_epoll_chat.Client.State.{
  Client, in_room, Line, show, print_prompt, history, history_begins, history_ends,
}
use cpp_epoll_chat.Message.{Message, serialize, parse}
use cpp_epoll_chat.Message.RoundTrip.{Fits, parse-serialize}
use cpp_epoll_chat.Result.{code_byte}
use cpp_epoll_chat.Protocol.{cmd_join_room, cmd_load_message, command_byte}

-- The loop from the last message to the first.
history_lines-reverse : (ms : List Message) → history_lines ms ≡ map history (reverse ms)
unfolding history_lines
history_lines-reverse [] = refl
history_lines-reverse (m ∷ ms) =
    ap (λ l. l ++ (history m ∷ [])) (history_lines-reverse ms)
    ∙ sym (map-append history (reverse ms) (m ∷ []))
    ∙ ap (map history) (sym (reverse-cons m ms))

-- A page of messages that arrive with the newest first, shown with the oldest first; nothing is shown of
-- an empty one.
abbrev pub page : List Message → List Line
page [] = []
page (m ∷ ms) =
    history_begins (length (m ∷ ms)) ∷ (map history (reverse (m ∷ ms)) ++ (history_ends ∷ []))

-- The cursor behind a page: the id of its last message, or what it was.
abbrev pub cursor_after : ℕ → List Message → ℕ
cursor_after id [] = id
cursor_after id (m ∷ ms) = cursor_after m.id ms

back_id_lem : (id : ℕ) (ms : List Message) → back_id id ms ≡ cursor_after id ms
unfolding back_id
back_id_lem id [] = refl
back_id_lem id (m ∷ ms) = back_id_lem m.id ms

-- The client behind a page.
abbrev pub paged : List Message → Client → Client
paged ms c = record c {
  shown = c.shown ++ page ms;
  oldest_message_id = cursor_after c.oldest_message_id ms;
}

print_history_parsed :
    (body : List ℕ) (ms : List Message) (c : Client)
    → parse body ≡ some ms
    → print_history body c ≡ (some (length ms), paged ms c)
unfolding print_history
print_history_parsed body [] c e =
    rw (e, print_history) (λ i. (some 0, record c { shown = sym (append-nil c.shown) i }))
print_history_parsed body (m ∷ ms) c e =
    rw (e, print_history)
      (λ i. (
        some (length (m ∷ ms)),
        record c {
          shown =
              c.shown
              ++ (history_begins (length (m ∷ ms))
                  ∷ (history_lines-reverse (m ∷ ms) i ++ (history_ends ∷ [])));
          oldest_message_id = back_id_lem m.id ms i;
        },
      ))

parse-serialize_alone :
    (ms : List Message)
    → length ms < 2 ^ 32
    → All Fits ms
    → length (serialize ms) < 2 ^ 63
    → parse (serialize ms) ≡ some ms
parse-serialize_alone ms small fits size =
    subst (λ l. parse l ≡ some ms) (append-nil (serialize ms))
      (parse-serialize ms [] small fits
        (subst (λ l. length l < 2 ^ 63) (sym (append-nil (serialize ms))) size))

-- A client that joins a room and is answered with success and a page of messages, which has below 2^32 of
-- them, each fitting the wire: it is in the room and awaits nothing, has shown the page with the oldest
-- first, and its cursor is the id of the page's last message, or 0 if there is none.
pub take_reply-join :
    (room_id : ℕ) (ms : List Message) (r : Reply) (c : Client)
    → c.pending ≡ some (record { command = cmd_join_room; room_id = room_id })
    → r.command ≡ cmd_join_room
    → r.status ≡ 1
    → length ms < 2 ^ 32
    → All Fits ms
    → length (serialize ms) < 2 ^ 63
    → take_reply r (serialize ms) c
      ≡ print_prompt (
          paged ms
            (show (Line.joined room_id) (moved in_room room_id (record c { pending = none }))))
unfolding take_reply succeed enter_joined command_byte code_byte
take_reply-join room_id ms r c awaits command status small fits size =
    let c1 = show (Line.joined room_id) (moved in_room room_id (record c { pending = none })) in
    let h = print_history_parsed (serialize ms) ms c1 (parse-serialize_alone ms small fits size) in
    rw (awaits, take_reply) (rw (command, status) (ap (λ q. print_prompt (after_join q)) h))

after_load-some : (n : ℕ) (c : Client) → after_load (some (suc n), c) ≡ c
after_load-some n c = ground arith

-- A page that was asked for in a room, with a message at least: the client shows it with the oldest first,
-- and its cursor moves to the page's last message; it stays where it is, and awaits nothing. The page has
-- below 2^32 messages, each fitting the wire.
pub take_reply-load :
    (room_id : ℕ) (ms : List Message) (r : Reply) (c : Client) (m : Message)
    → c.pending ≡ some (record { command = cmd_load_message; room_id = room_id })
    → r.command ≡ cmd_load_message
    → r.status ≡ 1
    → length (m ∷ ms) < 2 ^ 32
    → All Fits (m ∷ ms)
    → length (serialize (m ∷ ms)) < 2 ^ 63
    → take_reply r (serialize (m ∷ ms)) c
      ≡ print_prompt (paged (m ∷ ms) (record c { pending = none }))
unfolding take_reply succeed show_loaded command_byte code_byte
take_reply-load room_id ms r c m awaits command status small fits size =
    let h =
      print_history_parsed (serialize (m ∷ ms)) (m ∷ ms) (record c { pending = none })
        (parse-serialize_alone (m ∷ ms) small fits size) in
    rw (awaits, take_reply)
      (rw (command, status)
        (ap (λ q. print_prompt (after_load q)) h ∙ ap print_prompt (after_load-some (length ms) _)))
