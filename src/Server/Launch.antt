-- ===== src/Server/Launch.antt =====
-- The constructor and the destructor of `Server`, its loop (server/src/server/Server.cpp), and the program
-- (server/run_server.cpp). Starting the threads only lets them take steps; joining a worker waits for the
-- loop over its queue, and here no other thread runs meanwhile.
pub mod Closed
use cpp_epoll_chat.Base.{ℕ, List, [], ◌∷◌, Bool, true, false, Option, none, some, if◌then◌else◌}
use cpp_epoll_chat.Db.{Libpq}
use cpp_epoll_chat.Db.Thread.{Standing, stop}
use cpp_epoll_chat.Epoll
use cpp_epoll_chat.Epoll.{Kernel, Waited, listening}
use cpp_epoll_chat.Protocol.{Command}
use cpp_epoll_chat.RoomWorker.Process.{drain_queue}
use cpp_epoll_chat.Server.{Server, Ready, Outcome, goes_on, throws, ◌>>=◌, run}
use cpp_epoll_chat.Server.Start.{new_server}
use cpp_epoll_chat.Socket.{Socket, socket_of, get, destroy}
use cpp_epoll_chat.World.{World}

-- What the kernel answers to the calls of the constructor: `none` and `false` are errors.
pub record Opening : Type 0 where
  pub socket : Option ℕ
  pub bound : Bool
  pub listens : Bool
  pub eventfd : Option ℕ

-- How the constructor ends: an exception leaves it, with the sockets that were closed on the way, or
-- `exit` is called.
pub data Construction (I : Type 0) : Type 0 where
  started : Server I → Construction I
  left_by_exception : List ℕ → Construction I
  exits : Construction I

-- The listener, or `none` for an exception, and the sockets that were closed.
unfoldable pub create_listner : Opening → Option Socket × List ℕ
unfolding socket_of destroy
create_listner o = elim (socket_of o.socket) [
  | none ↦ (none, [])
  | some sock ↦
      if o.bound
      then (if o.listens then (some sock, []) else (none, destroy sock []))
      else (none, destroy sock [])
]

module _ (kernel : Kernel) where
  open kernel use {Interest}

  -- The second call of `epoll_.add`, on the new eventfd.
  abbrev pub adds_eventfd :
      Socket → ℕ → ℕ → World → Command → Bool × Interest → Construction Interest
  adds_eventfd listener fd eventfd world garbage (true, interest) =
      started (new_server world interest fd eventfd garbage)
  adds_eventfd listener fd eventfd world garbage (false, interest) =
      left_by_exception (destroy listener [])

  -- Behind the first call of `epoll_.add`, on the listener.
  abbrev pub opens_eventfd :
      Opening → Socket → ℕ → World → Command → Bool × Interest → Construction Interest
  opens_eventfd o listener fd world garbage (true, interest) = elim o.eventfd [
    | none ↦ exits
    | some eventfd ↦
        adds_eventfd listener fd eventfd world garbage (Epoll.add kernel eventfd listening interest)
  ]
  opens_eventfd o listener fd world garbage (false, interest) =
      left_by_exception (destroy listener [])

  -- The members stand in the order of the class. A socket without a descriptor would be refused by
  -- `epoll_ctl`.
  unfoldable pub construct : Opening → World → Command → Construction Interest
  unfolding create_listner
  construct o world garbage =
      let (made, closed) = create_listner o in
      elim made [
        | none ↦ left_by_exception closed
        | some listener ↦ elim (Epoll.new_epoll kernel) [
          | none ↦ left_by_exception (destroy listener [])
          | some interest ↦ elim (get listener) [
            | none ↦ left_by_exception (destroy listener [])
            | some fd ↦
                opens_eventfd o listener fd world garbage (Epoll.add kernel fd listening interest)
          ]
        ]
      ]

  -- The loop of `run`, over what `epoll_wait` answers.
  unfoldable pub serve : List (Waited Ready) → Server Interest → Outcome Interest
  unfolding run
  serve [] s = goes_on s
  serve (answer ∷ rest) s = elim (Epoll.wait answer) [
    | none ↦ throws s
    | some events ↦ run kernel events s >>= serve rest
  ]

-- `RoomManager::stop`, with the workers in the order of the map.
unfoldable pub stop_workers : ℕ → List ℕ → World → World
unfolding drain_queue
stop_workers fuel [] w = w
stop_workers fuel (k ∷ order) w = stop_workers fuel order (drain_queue fuel k w)

module _ (pq : Libpq) (account_serialize : Option (pq.Res) → List ℕ) where
  -- The destructor, with where the database thread stands, its connection and its rounds, and the draws of
  -- the callbacks behind it. `none`: the rounds or the draws ran out.
  unfoldable pub destruct :
      (fuel : ℕ) (order : List ℕ)
      → Standing
      → pq.Conn
      → List (ℕ × List ℕ)
      → (first : ℕ) (draws : List ℕ) → World
      → Option World
  unfolding stop_workers stop
  destruct fuel order standing conn rounds first draws w =
      stop pq account_serialize standing conn rounds first draws (stop_workers fuel order w)

-- How the program stands once the answers of `epoll_wait` are used up: it serves on, or it returned a code
-- before there was a server, or an exception left `run`, the server was destroyed, and it returned 1.
pub data Finish (I : Type 0) : Type 0 where
  serving : Server I → Finish I
  returns : ℕ → Finish I
  returns_1 : Option World → Finish I

-- From `fuel` on, what the destructor is given besides the world.
unfoldable pub main :
    (pq : Libpq)
    → (Option (pq.Res) → List ℕ)
    → (kernel : Kernel) → Opening
    → World
    → Command
    → List (Waited Ready)
    → (fuel : ℕ) (order : List ℕ) → Standing
    → pq.Conn
    → List (ℕ × List ℕ)
    → (first : ℕ) (draws : List ℕ) → Finish (kernel.Interest)
unfolding construct serve destruct
main pq account_serialize kernel o world garbage answers fuel order standing conn rounds first
      draws =
    elim (construct kernel o world garbage) [
      | left_by_exception closed ↦ returns 1
      | exits ↦ returns 1
      | started s ↦ elim (serve kernel answers s) [
        | goes_on s' ↦ serving s'
        | throws s' ↦
            returns_1
              (destruct pq account_serialize fuel order standing conn rounds first draws s'.world)
      ]
    ]
