-- ===== src/Client/Launch.antt =====
-- The constructor of `Client` with its attempts to connect, the rounds of its event loop
-- (client/src/Client.cpp), its epoll descriptor (client/src/Epoll.cpp), and the program
-- (client/run_client.cpp).
pub mod Attempts
use cpp_epoll_chat.Base.{
  ℕ, zero, suc, List, [], ◌∷◌, ◌++◌, Bool, true, false, Option, none, some, if◌then◌else◌,
}
use cpp_epoll_chat.Client.Handle.{Handle, socket_of, destroy}
use cpp_epoll_chat.Client.Loop.{Ready, run_loop}
use cpp_epoll_chat.Client.Socket.{Socket}
use cpp_epoll_chat.Client.State.{
  Client, Line, connecting, connect_failed, connected, not_connected, new_client, print_prompt,
}
use cpp_epoll_chat.Epoll.{Kernel, Mask, ctl_add, Waited, woken, interrupted, wait_failed, listening}

module _ (kernel : Kernel) where
  open kernel use {Interest}

  -- The constructor of the client's own `Epoll`; `none` is an exception.
  unfoldable pub new_epoll : Option Interest
  new_epoll = kernel.epoll_create1

  -- `false` is an exception.
  unfoldable pub add : ℕ → Mask → Interest → Bool × Interest
  add target_fd events = kernel.epoll_ctl ctl_add target_fd (some events)

-- `none` is an exception, also where a signal interrupts the wait.
unfoldable pub wait {ℓ} : {A : Type ℓ} → Waited A → Option (List A)
wait (woken events) = some events
wait interrupted = none
wait wait_failed = none

-- What the kernel answers to `socket` and `connect`.
pub record Attempt : Type 0 where
  pub socket : Option ℕ
  pub connects : Bool

-- The member `sock_`, the descriptors that were closed, and what was shown.
pub record Connecting : Type 0 where
  pub sock : Option Handle
  pub closed : List ℕ
  pub shown : List Line

unfoldable pub connect_server : Attempt → Connecting → Bool × Connecting
unfolding socket_of
connect_server a c = elim a.socket [
  | none ↦ (false, c)
  | some fd ↦
      if a.connects
      then (true, record c { sock = socket_of (some fd) })
      else (false, record c { closed = c.closed ++ (fd ∷ []) })
]

abbrev pub says_line : Line → Connecting → Connecting
says_line line c = record c { shown = c.shown ++ (line ∷ []) }

-- The loop over the attempts, from number `n` on. Behind the answers no attempt succeeds.
unfoldable pub attempts : ℕ → ℕ → List Attempt → Connecting → Bool × Connecting
unfolding connect_server
attempts zero n answers c = (false, c)
attempts (suc tries) n [] c =
    attempts tries (suc n) [] (says_line connect_failed (says_line (connecting n) c))
attempts (suc tries) n (a ∷ answers) c =
    let (ok, c') = connect_server a (says_line (connecting n) c) in
    let rest = attempts tries (suc n) answers (says_line connect_failed c') in
    if ok then (true, c') else rest

abbrev pub max_tries : ℕ
max_tries = 3

-- How the constructor ends. The client that is not connected has only shown something.
pub data Construction : Type 0 where
  started : Client → Construction
  unconnected : Connecting → Construction
  left_by_exception : List ℕ → Construction

abbrev pub stdin_fileno : ℕ
stdin_fileno = 0

-- `sock` and `padding` are what the kernel has for the connection, and the memory.
module _ (kernel : Kernel) (sock : Socket) (padding : ℕ) where
  open kernel use {Interest}

  abbrev pub adds_stdin : Handle → Connecting → Bool × Interest → Construction
  adds_stdin handle c (true, interest) = started (new_client sock padding c.shown)
  adds_stdin handle c (false, interest) = left_by_exception (destroy handle c.closed)

  abbrev pub adds_sock : Handle → Connecting → Bool × Interest → Construction
  adds_sock handle c (true, interest) =
      adds_stdin handle c (add kernel stdin_fileno listening interest)
  adds_sock handle c (false, interest) = left_by_exception (destroy handle c.closed)

  -- A handle without a descriptor would be refused by `epoll_ctl`.
  abbrev pub watches : Option Handle → Interest → Connecting → Construction
  watches none interest c = unconnected c
  watches (some handle) interest c = elim handle.fd [
    | none ↦ left_by_exception (destroy handle c.closed)
    | some fd ↦ adds_sock handle c (add kernel fd listening interest)
  ]

  -- Behind the construction of `epoll_`.
  abbrev pub connects_with : List Attempt → Interest → Construction
  connects_with answers interest =
      let (ok, c) =
        attempts max_tries 1 answers (record { sock = none; closed = []; shown = [] }) in
      let c' = says_line connected c in if ok then watches c'.sock interest c' else unconnected c

  unfoldable pub construct : List Attempt → Construction
  unfolding attempts
  construct answers = elim (new_epoll kernel) [
    | none ↦ left_by_exception []
    | some interest ↦ connects_with answers interest
  ]

-- How `run` ends: it returns, or the answers are used up, or an exception leaves it.
pub data Ended : Type 0 where
  ends throws : Client → Ended

-- The loop of `run`, over what `epoll_wait` answers.
unfoldable pub rounds : List (Waited Ready) → Client → Ended
unfolding run_loop wait
rounds [] c = ends c
rounds (answer ∷ rest) c = elim c.running [
  | false ↦ ends c
  | true ↦ elim (wait answer) [ none ↦ throws c | some events ↦ rounds rest (run_loop events c) ]
]

abbrev pub exit_code : Ended → ℕ
exit_code (ends c) = 0
exit_code (throws c) = 1

-- The program: what it shows, and the code that it returns.
unfoldable pub main :
    (kernel : Kernel) → Socket → ℕ → List Attempt → List (Waited Ready) → List Line × ℕ
unfolding construct rounds print_prompt
main kernel sock padding answers events = elim (construct kernel sock padding answers) [
  | left_by_exception closed ↦ ([], 1)
  | unconnected c ↦ (c.shown, 1)
  | started c ↦
      let ended = rounds events (print_prompt (record c { running = true })) in
      let left : Client = elim ended [ ends c' ↦ c' | throws c' ↦ c' ] in
      (left.shown, exit_code ended)
]
