-- ===== src/Session/Threads/Alone.antt =====
-- One call of `flush` (server/src/network/Session.cpp) as the steps of its thread.
use cpp_epoll_chat.Base.{
  ℕ, ◌≡◌, refl, sym, ap, ◌∙◌, List, [], ◌∷◌, ◌++◌, map, true, false, append-nil, append_assoc,
  Bool-cases, inl, inr,
}
use cpp_epoll_chat.Session.{
  Session, SendAnswer, SendBuffer, FlushRun, left_over, send_loop, flush_loop, flush, pack,
}
use cpp_epoll_chat.Session.Flush.{SendEnd-cases}
use cpp_epoll_chat.Session.Threads.{
  outside, wants, checks, sends, pops, clears, retests, retakes, Shared, moves, Steps, here, after,
  adds_buffer, begins, takes, finds_busy, finds_empty, finds_front, pops_front, clears_sending,
  has_finished, finds_more, goes_on,
}
use mathlib.Core.List.{map-append}
use cpp_epoll_chat.Session.Threads.Buffer.{Steps-then, stands_self, send_loop-Sent}

-- Where the outer loop, begun by the thread `t` in `s`, gets.
pub record Flushed (t : ℕ) (s : Shared) (run : FlushRun) : Type 0 where
  pub reached : Shared
  pub steps : Steps s reached
  pub queue : reached.queue ≡ map left_over run.queue
  pub written : reached.written ≡ s.written ++ run.written
  pub outside : reached.at t ≡ outside
  pub free : reached.sending ≡ false

-- Behind the front that is sent: its buffer is popped, `sending_` cleared and the queue tested again.
after_front :
    (t : ℕ) (queue : List SendBuffer) (answers : List SendAnswer) (b : List ℕ) (s : Shared)
    → s.at t ≡ pops
    → s.queue ≡ b ∷ map left_over queue
    → ((u : Shared)
        → u.at t ≡ checks
        → u.queue ≡ map left_over queue
        → Flushed t u (flush_loop queue answers))
    → Flushed t s (flush_loop queue answers)
unfolding flush_loop
after_front t [] answers b s e f go =
    let u = moves t clears (record s { queue = [] }) in
    let v = moves t retests (record u { sending = false }) in
    record {
      reached = moves t outside v;
      steps = after (pops_front t b [] s e f) (
          after (clears_sending t u (stands_self t clears s.at))
            (after (has_finished t v (stands_self t retests u.at) refl) (here _)));
      queue = refl;
      written = sym (append-nil s.written);
      outside = stands_self t outside v.at;
      free = refl;
    }
after_front t (c ∷ queue) answers b s e f go =
    let u = moves t clears (record s { queue = map left_over (c ∷ queue) }) in
    let v = moves t retests (record u { sending = false }) in
    let w = moves t retakes v in
    let x = moves t checks (record w { sending = true; stalled = false }) in
    let rest = go x (stands_self t checks w.at) refl in
    record {
      reached = rest.reached;
      steps = after (pops_front t b _ s e f) (
          after (clears_sending t u (stands_self t clears s.at)) (
            after (finds_more t v (stands_self t retests u.at) (λ h. cc))
              (after (goes_on t w (stands_self t retakes v.at) refl) rest.steps)));
      queue = rest.queue;
      written = rest.written;
      outside = rest.outside;
      free = rest.free;
    }

flush_loop-Flushed :
    (t : ℕ) (queue : List SendBuffer) (answers : List SendAnswer) (s : Shared)
    → s.at t ≡ checks
    → s.queue ≡ map left_over queue
    → Flushed t s (flush_loop queue answers)
unfolding flush_loop
flush_loop-Flushed t [] answers s e f = record {
  reached = moves t outside (record s { sending = false });
  steps = after (finds_empty t s e f) (here _);
  queue = f;
  written = sym (append-nil s.written);
  outside = stands_self t outside s.at;
  free = refl;
}
flush_loop-Flushed t (b ∷ queue) answers s e f =
    let run = send_loop answers b in
    let u = moves t sends s in
    let ih = flush_loop-Flushed t queue run.answers in
    let sent = send_loop-Sent t (map left_over queue) answers b u (stands_self t sends s.at) f in
    elim (SendEnd-cases run.ends) [
      | inl q ↦
          rw (q, flush_loop)
            (let rest =
                after_front t queue run.answers _ sent.reached (sent.pops q) sent.queue ih in
              record {
                reached = rest.reached;
                steps = after (finds_front t _ _ s e f) (Steps-then sent.steps rest.steps);
                queue = rest.queue;
                written =
                    rest.written
                    ∙ ap (λ x. x ++ (flush_loop queue run.answers).written) sent.written
                    ∙ append_assoc s.written run.written (flush_loop queue run.answers).written;
                outside = rest.outside;
                free = rest.free;
              })
      | inr (r, q) ↦
          rw (q, flush_loop)
            (record {
              reached = sent.reached;
              steps = after (finds_front t _ _ s e f) sent.steps;
              queue = sent.queue;
              written = sent.written;
              outside = (sent.leaves r q).0;
              free = (sent.leaves r q).1;
            })
    ]

-- The state of a session, as the threads see it.
pub record Shows (s : Session) (u : Shared) : Type 0 where
  pub queue : u.queue ≡ map left_over s.send_queue
  pub written : u.written ≡ s.sent
  pub sending : u.sending ≡ s.sending

-- Where a thread stands before the test of `sending_`, it can go on and leave as `flush` says.
flush-wants :
    (t : ℕ) (s : Session) (u : Shared)
    → u.at t ≡ wants
    → Shows s u
    → (v : Shared) × Steps u v × (v.at t ≡ outside) × Shows (flush s).1 v
unfolding flush
flush-wants t s u e h = elim (Bool-cases s.sending) [
  | inl busy ↦
      rw (busy, flush)
        (
          moves t outside u,
          after (finds_busy t u e (h.sending ∙ busy)) (here _),
          stands_self t outside u.at,
          record { queue = h.queue; written = h.written; sending = h.sending ∙ busy },
        )
  | inr idle ↦
      let v = moves t checks (record u { sending = true; stalled = false }) in
      let run =
        flush_loop-Flushed t s.send_queue s.outgoing v (stands_self t checks u.at) h.queue in
      rw (idle, flush)
        (
          run.reached,
          after (takes t u e (h.sending ∙ idle)) run.steps,
          run.outside,
          record {
            queue = run.queue;
            written =
                run.written ∙ ap (λ x. x ++ (flush_loop s.send_queue s.outgoing).written) h.written;
            sending = run.free;
          },
        )
]

-- A thread outside of both functions that packs a buffer and flushes, as `send_packet` does, or that
-- flushes alone can take steps that end outside, with the queue, the bytes that the kernel took and
-- `sending_` as `pack` and `flush` leave them, whatever the kernel answers, and also while another thread
-- sends.
pub flush-Steps :
    (t : ℕ) (bytes : List ℕ) (s : Session) (u : Shared)
    → u.at t ≡ outside
    → Shows s u
    → ((v : Shared) × Steps u v × (v.at t ≡ outside) × Shows (flush s).1 v)
      × ((v : Shared) × Steps u v × (v.at t ≡ outside) × Shows (flush (pack bytes s)).1 v)
unfolding pack
flush-Steps t bytes s u e h =
    let (v, steps, left, shows) =
      flush-wants t s (moves t wants u) (stands_self t wants u.at)
        (record { queue = h.queue; written = h.written; sending = h.sending }) in
    let w =
      moves t wants (record u { queue = u.queue ++ (bytes ∷ []); packed = u.packed ++ bytes }) in
    let (x, more, gone, shown) = flush-wants t (pack bytes s) w (stands_self t wants u.at) (record {
      queue = ap (λ q. q ++ (bytes ∷ [])) h.queue ∙ sym (map-append left_over s.send_queue _);
      written = h.written;
      sending = h.sending;
    }) in
    (
      (v, after (begins t u e) steps, left, shows),
      (x, after (adds_buffer t bytes u e) more, gone, shown),
    )
