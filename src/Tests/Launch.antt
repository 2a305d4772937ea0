-- ===== src/Tests/Launch.antt =====
-- The constructors of the server and the client, and their descriptors, at concrete answers of the kernel.
use cpp_epoll_chat.Base.{◌+◌, ◌≡◌, ◌↔◌, refl, List, [], ◌∷◌, ◌++◌, true, false, none, some, arith}
use cpp_epoll_chat.Base.Map.{find, emplace}
use cpp_epoll_chat.Client.Launch.{Attempt, Connecting, attempts}
use cpp_epoll_chat.Client.Launch.Attempts.{attempts_close, kept}
use cpp_epoll_chat.Epoll
use cpp_epoll_chat.Owner.{Use, makes, moves, assigns, destroys, nothing, uses_all}
use cpp_epoll_chat.Owner.Counted.{count, owners}
use cpp_epoll_chat.Protocol.{cmd_join_room}
use cpp_epoll_chat.Server.{Server, Outcome, goes_on, throws, handle_ready, accept_client, welcome}
use cpp_epoll_chat.Server.Launch.{Opening, Construction, started, construct, create_listner}
use cpp_epoll_chat.Server.Launch.Closed.{session_is_watched}
use cpp_epoll_chat.Server.Running.{Runs, rests, moves as also_moves, reports}
use cpp_epoll_chat.Server.Start.{new_server, new_world}
use cpp_epoll_chat.SessionManager.{get_session, add_session}
use cpp_epoll_chat.Socket.{get}
use cpp_epoll_chat.Socket.Owned.{sockets as server_sockets, uses_all_owned}
use cpp_epoll_chat.Tests.Fixtures.{connection}
use cpp_epoll_chat.Tests.Kernel.{Watches, kernel, kernel-Lawful}
use cpp_epoll_chat.Tests.Server.{fresh, first_client}

abbrev opening : Opening
opening = record { socket = some 3; bound = true; listens = true; eventfd = some 4 }

abbrev or_fresh : Construction Watches → Server Watches
or_fresh (started s) = s
or_fresh _ = fresh

abbrev built : Server Watches
built = or_fresh (construct kernel opening (new_world 2 connection 0) cmd_join_room)

abbrev or_built : Outcome Watches → Server Watches
or_built (goes_on s) = s
or_built (throws s) = built

abbrev let_in : Server Watches
let_in = or_built (handle_ready kernel first_client built)

lets_in : Runs kernel built let_in
unfolding new_server get_session find handle_ready accept_client emplace Epoll.add construct
    create_listner Epoll.new_epoll get
lets_in = also_moves (reports first_client built let_in (refl, omega arith) refl) (rests let_in)

session_is_watched_example : kernel-Lawful.watched 7 let_in.interest ≡ true
unfolding new_server get_session find handle_ready accept_client welcome add_session emplace
    Epoll.add construct create_listner Epoll.new_epoll get
session_is_watched_example =
    session_is_watched kernel kernel-Lawful opening 2 connection 0 cmd_join_room built let_in 7
      (record { address = 0; fd = 7 }) refl lets_in refl

-- A socket is made and moved into another, which is assigned to a third and destroyed.
abbrev moved_about : List Use
moved_about =
    makes 0 (some 7) ∷ moves 1 0 ∷ makes 2 (some 8) ∷ assigns 2 1 ∷ destroys 0 ∷ destroys 2 ∷ []

uses_all_owned_example :
    let m = uses_all server_sockets moved_about nothing in
    owners server_sockets 7 m.live + count 7 m.closed + count 7 m.released ≡ count 7 m.opened
uses_all_owned_example = uses_all_owned moved_about 7

-- The first attempt gets no socket, the second no connection, and the third both.
abbrev three_attempts : List Attempt
three_attempts =
    record { socket = none; connects = true }
    ∷ record { socket = some 3; connects = false }
    ∷ record { socket = some 4; connects = true }
    ∷ []

abbrev unconnected : Connecting
unconnected = record { sock = none; closed = []; shown = [] }

attempts_close_example :
    let (ok, c') = attempts 3 1 three_attempts unconnected in
    (ok ≡ true) × (c'.closed ++ kept c'.sock ≡ 3 ∷ 4 ∷ []) × ((c'.sock ≡ none) ↔ (ok ≡ false))
attempts_close_example = attempts_close 3 1 three_attempts unconnected refl
