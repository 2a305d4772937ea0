-- ===== src/Client/Loop.antt =====
-- `Client::run` (client/src/Client.cpp), over what becomes ready: a line at the terminal, or bytes of the
-- connection.
use cpp_epoll_chat.Base.{ℕ, List, [], ◌∷◌, true, false, if◌then◌else◌}
use cpp_epoll_chat.Client.Replies.{handle_packet}
use cpp_epoll_chat.Client.Requests.{handle_input}
use cpp_epoll_chat.Client.State.{Client, show, print_prompt, server_gone}

pub data Ready : Type 0 where
  input : List ℕ → Ready
  packet : Ready

unfoldable pub take_packet : Client → Client
take_packet c =
    let (ok, c') = handle_packet c in
    if ok then c' else record (show server_gone c') { running = false }

unfoldable pub handle : Ready → Client → Client
unfolding take_packet
handle (input buf) c = handle_input buf c
handle packet c = take_packet c

-- The events of all rounds, in order: the loops stop once the client is not running.
unfoldable pub run_loop : List Ready → Client → Client
unfolding handle
run_loop [] c = c
run_loop (r ∷ rest) c = elim c.running [ false ↦ c | true ↦ run_loop rest (handle r c) ]

unfoldable pub run : List Ready → Client → Client
unfolding run_loop
run events c = run_loop events (print_prompt (record c { running = true }))
