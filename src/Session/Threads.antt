-- ===== src/Session/Threads.antt =====
-- `Session::pack` and `Session::flush` (server/src/network/Session.cpp) by several threads at once: each
-- locked section, each operation on `sending_` and each call of `send` is a step, and the threads take
-- their steps in any order.
pub mod Holding
pub mod Orderly
pub mod Buffer
pub mod Alone
use cpp_epoll_chat.Base.{
  ℕ, ◌≡◌, ◌≢◌, List, [], ◌∷◌, ◌++◌, length, take, drop, ◌<◌, ◌≤◌, Bool, true, false, ◌==◌,
  if◌then◌else◌,
}

-- Where a thread stands: outside of both functions, before the test of `sending_`, before the test of the
-- queue, in the inner loop, before the front is popped, before `sending_` is cleared, before the test
-- of the queue behind the loop, before `sending_` is exchanged there.
pub data Point : Type 0 where
  outside wants checks sends pops clears retests retakes : Point

-- `queue` has what is left of each buffer. `packed` and `written` are all bytes that were ever packed, and
-- that the kernel took; `stalled` says that the thread that set `sending_` last left with `Pending` or
-- `Error`.
pub record Shared : Type 0 where
  pub queue : List (List ℕ)
  pub sending : Bool
  pub packed : List ℕ
  pub written : List ℕ
  pub stalled : Bool
  pub at : ℕ → Point

abbrev pub stands : ℕ → Point → (ℕ → Point) → ℕ → Point
stands t p points u = if t == u then p else points u

abbrev pub moves : ℕ → Point → Shared → Shared
moves t p s = record s { at = stands t p s.at }

pub data Step : Shared → Shared → Type 0 where
  -- `pack`, behind which its callers call `flush`, and a call of `flush` by itself.
  adds_buffer :
      (t : ℕ) (bytes : List ℕ) (s : Shared)
      → s.at t ≡ outside
      → Step s
          (moves t wants (record s { queue = s.queue ++ (bytes ∷ []); packed = s.packed ++ bytes }))
  begins : (t : ℕ) (s : Shared) → s.at t ≡ outside → Step s (moves t wants s)
  -- `compare_exchange_strong`.
  takes :
      (t : ℕ) (s : Shared)
      → s.at t ≡ wants
      → s.sending ≡ false
      → Step s (moves t checks (record s { sending = true; stalled = false }))
  finds_busy : (t : ℕ) (s : Shared) → s.at t ≡ wants → s.sending ≡ true → Step s (moves t outside s)
  -- The first section under the lock.
  finds_empty :
      (t : ℕ) (s : Shared)
      → s.at t ≡ checks
      → s.queue ≡ []
      → Step s (moves t outside (record s { sending = false }))
  finds_front :
      (t : ℕ) (b : List ℕ) (rest : List (List ℕ)) (s : Shared)
      → s.at t ≡ checks
      → s.queue ≡ b ∷ rest
      → Step s (moves t sends s)
  -- The inner loop: `send` takes some bytes, or would block, or fails; EINTR is no step.
  writes :
      (t n : ℕ) (b : List ℕ) (rest : List (List ℕ)) (s : Shared)
      → s.at t ≡ sends
      → s.queue ≡ b ∷ rest
      → 0 < n
      → n ≤ length b
      → Step s
          (moves t sends (record s { queue = drop n b ∷ rest; written = s.written ++ take n b }))
  blocks_or_fails :
      (t : ℕ) (b : List ℕ) (rest : List (List ℕ)) (s : Shared)
      → s.at t ≡ sends
      → s.queue ≡ b ∷ rest
      → b ≢ []
      → Step s (moves t outside (record s { sending = false; stalled = true }))
  has_sent :
      (t : ℕ) (rest : List (List ℕ)) (s : Shared)
      → s.at t ≡ sends
      → s.queue ≡ [] ∷ rest
      → Step s (moves t pops s)
  -- `pop` under the lock, and `sending_` cleared behind it.
  pops_front :
      (t : ℕ) (b : List ℕ) (rest : List (List ℕ)) (s : Shared)
      → s.at t ≡ pops
      → s.queue ≡ b ∷ rest
      → Step s (moves t clears (record s { queue = rest }))
  clears_sending :
      (t : ℕ) (s : Shared)
      → s.at t ≡ clears
      → Step s (moves t retests (record s { sending = false }))
  -- The condition of the outer loop.
  has_finished : (t : ℕ) (s : Shared) → s.at t ≡ retests → s.queue ≡ [] → Step s (moves t outside s)
  finds_more : (t : ℕ) (s : Shared) → s.at t ≡ retests → s.queue ≢ [] → Step s (moves t retakes s)
  goes_on :
      (t : ℕ) (s : Shared)
      → s.at t ≡ retakes
      → s.sending ≡ false
      → Step s (moves t checks (record s { sending = true; stalled = false }))
  leaves_it :
      (t : ℕ) (s : Shared) → s.at t ≡ retakes → s.sending ≡ true → Step s (moves t outside s)

pub data Steps : Shared → Shared → Type 0 where
  here : (s : Shared) → Steps s s
  after : {s t u : Shared} → Step s t → Steps t u → Steps s u

-- A new session, and all threads elsewhere.
abbrev pub fresh : Shared
fresh = record {
  queue = [];
  sending = false;
  packed = [];
  written = [];
  stalled = false;
  at = λ t. outside;
}
