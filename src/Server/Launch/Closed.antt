-- ===== src/Server/Launch/Closed.antt =====
-- What the constructor of `Server` (server/src/server/Server.cpp) leaves behind, also when it fails.
use cpp_epoll_chat.Base.{
  ℕ, ◌≡◌, refl, subst, List, [], ◌∷◌, Bool, true, false, Option, none, some, Option-cases, inl, inr,
}
use cpp_epoll_chat.Base.Map.{find}
use cpp_epoll_chat.Epoll
use cpp_epoll_chat.Epoll.{Kernel, Lawful, listening}
use cpp_epoll_chat.Protocol.{Command}
use cpp_epoll_chat.Room.{SessionRef}
use cpp_epoll_chat.Server.{Server}
use cpp_epoll_chat.Server.Launch.{
  Opening, Construction, started, left_by_exception, exits, create_listner, adds_eventfd,
  opens_eventfd, construct,
}
use cpp_epoll_chat.Server.Matched.{IsValid}
use cpp_epoll_chat.Server.Registered.{IsWatched, Runs-IsWatched}
use cpp_epoll_chat.Server.Running.{Runs}
use cpp_epoll_chat.Server.Start.{new_world, new_server, new_server-IsValid}
use cpp_epoll_chat.Session.{Session}
use cpp_epoll_chat.SessionManager.{get_session}
use cpp_epoll_chat.Socket.{Socket, socket_of, destroy, get}
use cpp_epoll_chat.World.{World}

module _ (kernel : Kernel) where
  open kernel use {Interest}

  -- What holds of a constructed server or, after an exception, of the closed sockets.
  abbrev Builds : (Server Interest → Type 0) → (List ℕ → Type 0) → Construction Interest → Type 0
  Builds P Q (started s) = P s
  Builds P Q (left_by_exception closed) = Q closed
  Builds P Q exits = Unit {0}

  opens_eventfd-Builds :
      (P : Server Interest → Type 0) (Q : List ℕ → Type 0) (o : Opening) (listener : Socket)
      (fd : ℕ) (w : World) (garbage : Command) (r : Bool × Interest)
      → ((interest : Interest) (eventfd : ℕ) → P (new_server w interest fd eventfd garbage))
      → Q (destroy listener [])
      → Builds P Q (opens_eventfd kernel o listener fd w garbage r)
  opens_eventfd-Builds P Q o listener fd w garbage (false, interest) p q = q
  opens_eventfd-Builds P Q o listener fd w garbage (true, interest) p q =
      elim (Option-cases o.eventfd) [
        | inl e ↦ rw (e, opens_eventfd) tt
        | inr (eventfd, e) ↦
            rw (e, opens_eventfd) (added eventfd (Epoll.add kernel eventfd listening interest))
      ]
    where
      added :
          (eventfd : ℕ) (r : Bool × Interest)
          → Builds P Q (adds_eventfd kernel listener fd eventfd w garbage r)
      added eventfd (true, i) = p i eventfd
      added eventfd (false, i) = q

  -- The listening socket, if it was opened.
  abbrev pub opened : Opening → List ℕ
  opened o = elim o.socket [ none ↦ [] | some fd ↦ fd ∷ [] ]

  construct-Builds :
      (P : Server Interest → Type 0) (o : Opening) (w : World) (garbage : Command)
      → ((interest : Interest) (fd eventfd : ℕ) → P (new_server w interest fd eventfd garbage))
      → Builds P (λ closed. closed ≡ opened o) (construct kernel o w garbage)
  unfolding construct create_listner socket_of destroy get
  construct-Builds P o w garbage p = made o.socket o.bound o.listens o.eventfd
    where
      made :
          (socket : Option ℕ) (bound listens : Bool) (eventfd : Option ℕ)
          → let o : Opening = record {
            socket = socket;
            bound = bound;
            listens = listens;
            eventfd = eventfd;
          } in
            Builds P (λ closed. closed ≡ opened o) (construct kernel o w garbage)
      made none bound listens eventfd = refl
      made (some fd) false listens eventfd = refl
      made (some fd) true false eventfd = refl
      made (some fd) true true eventfd = elim (Option-cases (Epoll.new_epoll kernel)) [
        | inl q ↦ rw (q, construct) refl
        | inr (interest, q) ↦
            rw (q, construct)
              (opens_eventfd-Builds P _
                (record { socket = some fd; bound = true; listens = true; eventfd = eventfd })
                (record { fd = some fd }) fd w garbage (Epoll.add kernel fd listening interest)
                (λ interest' eventfd'. p interest' fd eventfd') refl)
      ]

  -- An exception that leaves the constructor closes the listening socket, if it was opened, once.
  pub construct-closes :
      (o : Opening) (w : World) (garbage : Command) (closed : List ℕ)
      → construct kernel o w garbage ≡ left_by_exception closed
      → closed ≡ opened o
  construct-closes o w garbage closed e =
      subst (Builds (λ s. Unit {0}) (λ c. c ≡ opened o)) e
        (construct-Builds (λ s. Unit {0}) o w garbage (λ interest fd eventfd. tt))

  module _ (lawful : Lawful kernel) where
    -- However a server runs once it is constructed, the kernel watches the descriptor of every session,
    -- so that it reports what comes there. Every `accept4` brings a descriptor that no session has, and
    -- the count of users does not wrap.
    pub session_is_watched :
        (o : Opening) (room_worker_num : ℕ) (heap : ℕ → Session) (padding : ℕ) (garbage : Command)
        (start s : Server Interest) (fd : ℕ) (ref : SessionRef)
        → construct kernel o (new_world room_worker_num heap padding) garbage ≡ started start
        → Runs kernel start s
        → get_session fd s.session_manager ≡ some ref
        → lawful.watched fd s.interest ≡ true
    unfolding get_session find new_server
    session_is_watched o room_worker_num heap padding garbage start s fd ref e runs found =
        let P : Server Interest → Type 0 = λ t. IsValid t × IsWatched kernel lawful t in
        let w = new_world room_worker_num heap padding in
        let begins : (interest : Interest) (listener eventfd : ℕ)
            → P (new_server w interest listener eventfd garbage) =
          λ interest listener eventfd. (
            new_server-IsValid room_worker_num heap padding interest listener eventfd garbage,
            λ other ref' q. cc,
          ) in
        let (valid, watched) =
          subst (Builds P (λ closed. closed ≡ opened o)) e
            (construct-Builds P o w garbage begins) in
        Runs-IsWatched kernel lawful runs valid watched fd ref found
