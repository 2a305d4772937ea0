-- ===== src/Client/Launch/Attempts.antt =====
-- The attempts of the client to connect, and the rounds of its loop (client/src/Client.cpp).
use cpp_epoll_chat.Base.{
  ℕ, zero, suc, ◌≡◌, refl, sym, ap, ◌∙◌, if◌then◌else◌, List, [], ◌∷◌, ◌++◌, ◌||◌, ◌↔◌, map, Bool,
  true, false, Option, none, some, append_assoc, Bool-cases, inl, inr,
}
use cpp_epoll_chat.Client.Handle.{Handle, socket_of}
use cpp_epoll_chat.Client.Launch.{
  Attempt, Connecting, connect_server, says_line, attempts, ends, rounds, wait,
}
use cpp_epoll_chat.Client.Loop.{Ready, handle, run_loop}
use cpp_epoll_chat.Client.State.{Client, connecting, connect_failed}
use cpp_epoll_chat.Epoll.{woken}

abbrev pub succeeds : Attempt → Bool
succeeds a = elim a.socket [ none ↦ false | some fd ↦ a.connects ]

-- The attempts that are made: up to the first that succeeds.
abbrev pub made : ℕ → List Attempt → List Attempt
made zero answers = []
made (suc tries) [] = []
made (suc tries) (a ∷ answers) = a ∷ (if succeeds a then [] else made tries answers)

abbrev pub any_succeeds : List Attempt → Bool
any_succeeds [] = false
any_succeeds (a ∷ answers) = succeeds a || any_succeeds answers

-- The descriptors that they open.
abbrev pub sockets : List Attempt → List ℕ
sockets [] = []
sockets (a ∷ answers) = elim a.socket [ none ↦ sockets answers | some fd ↦ fd ∷ sockets answers ]

abbrev pub kept : Option Handle → List ℕ
kept none = []
kept (some handle) = elim handle.fd [ none ↦ [] | some fd ↦ fd ∷ [] ]

abbrev pub concat : List (List Ready) → List Ready
concat [] = []
concat (xs ∷ batches) = xs ++ concat batches

run_loop_stopped : (ys : List Ready) (c : Client) → c.running ≡ false → run_loop ys c ≡ c
unfolding run_loop
run_loop_stopped [] c q = refl
run_loop_stopped (r ∷ ys) c q = simp (q, run_loop)

run_loop-append :
    (xs ys : List Ready) (c : Client) → run_loop (xs ++ ys) c ≡ run_loop ys (run_loop xs c)
unfolding run_loop
run_loop-append [] ys c = refl
run_loop-append (r ∷ xs) ys c = elim (Bool-cases c.running) [
  | inl on ↦ rw (run_loop, on) (run_loop-append xs ys (handle r c))
  | inr off ↦
      ap (λ (stopped : Bool). elim stopped [ false ↦ c | true ↦ run_loop (xs ++ ys) (handle r c) ])
        off
      ∙ sym (run_loop_stopped ys c off)
      ∙ ap (run_loop ys) (
          sym (
            ap (λ (stopped : Bool). elim stopped [ false ↦ c | true ↦ run_loop xs (handle r c) ])
              off))
]

-- However `epoll_wait` groups the events, the client does the same, in the same order.
pub rounds-woken :
    (batches : List (List Ready)) (c : Client)
    → rounds (map woken batches) c ≡ ends (run_loop (concat batches) c)
unfolding rounds run_loop wait
rounds-woken [] c = refl
rounds-woken (xs ∷ batches) c = elim (Bool-cases c.running) [
  | inl on ↦
      ap
        (λ (running : Bool). elim running [
          | false ↦ ends c
          | true ↦ rounds (map woken batches) (run_loop xs c)
        ])
        on
      ∙ rounds-woken batches (run_loop xs c)
      ∙ ap ends (sym (run_loop-append xs (concat batches) c))
  | inr off ↦
      ap
        (λ (running : Bool). elim running [
          | false ↦ ends c
          | true ↦ rounds (map woken batches) (run_loop xs c)
        ])
        off
      ∙ ap ends (sym (run_loop_stopped (xs ++ concat batches) c off))
]

made_none : (tries : ℕ) → made tries [] ≡ []
made_none zero = refl
made_none (suc tries) = refl

-- The client has a socket when an attempt succeeded, and only then. Every socket that the attempts opened
-- is closed but the one that is kept.
pub attempts_close :
    (tries n : ℕ) (answers : List Attempt) (c : Connecting)
    → c.sock ≡ none
    → let (ok, c') = attempts tries n answers c in
      (ok ≡ any_succeeds (made tries answers))
      × (c'.closed ++ kept c'.sock ≡ c.closed ++ sockets (made tries answers))
      × ((c'.sock ≡ none) ↔ (ok ≡ false))
unfolding attempts connect_server socket_of
attempts_close zero n answers c q = (refl, ap (λ s. c.closed ++ kept s) q, (λ e. refl, λ e. q))
attempts_close (suc tries) n [] c q =
    let (ok, closes, has) =
      attempts_close tries (suc n) [] (says_line connect_failed (says_line (connecting n) c)) q in
    (
      ok ∙ ap any_succeeds (made_none tries),
      closes ∙ ap (λ (xs : List Attempt). c.closed ++ sockets xs) (made_none tries),
      has,
    )
attempts_close (suc tries) n (a ∷ answers) c q =
    tried a.socket a.connects (attempts_close tries (suc n) answers)
  where
    tried :
        (socket : Option ℕ) (connects : Bool)
        → ((c : Connecting)
            → c.sock ≡ none
            → let (ok, c') = attempts tries (suc n) answers c in
              (ok ≡ any_succeeds (made tries answers))
              × (c'.closed ++ kept c'.sock ≡ c.closed ++ sockets (made tries answers))
              × ((c'.sock ≡ none) ↔ (ok ≡ false)))
        → let a' : Attempt = record { socket = socket; connects = connects } in
          let (ok, c') = attempts (suc tries) n (a' ∷ answers) c in
          (ok ≡ any_succeeds (made (suc tries) (a' ∷ answers)))
          × (c'.closed ++ kept c'.sock ≡ c.closed ++ sockets (made (suc tries) (a' ∷ answers)))
          × ((c'.sock ≡ none) ↔ (ok ≡ false))
    tried none connects rest = rest (says_line connect_failed (says_line (connecting n) c)) q
    tried (some fd) true rest = (refl, refl, (λ e. cc, λ e. cc))
    tried (some fd) false rest =
        let failed : Connecting = record c { closed = c.closed ++ (fd ∷ []) } in
        let (ok, closes, has) =
          rest (says_line connect_failed (says_line (connecting n) failed)) q in
        (ok, closes ∙ append_assoc c.closed (fd ∷ []) (sockets (made tries answers)), has)
