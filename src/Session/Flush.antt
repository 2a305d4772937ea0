-- ===== src/Session/Flush.antt =====
-- What the loops of `flush` (server/src/network/Session.cpp) do to the bytes of a connection.
use cpp_epoll_chat.Base.{ℕ, zero, suc, ◌+◌, ◌-◌, ◌≤◌, ◌<◌, ◌≡◌, ◌≢◌, refl, sym, ap, ◌∙◌, arith}
use cpp_epoll_chat.Base.{
  List, [], ◌∷◌, ◌++◌, append_assoc, append-nil, length, take, drop, true, false,
}
use cpp_epoll_chat.Base.{
  ltb, ltb→lt, ltb→le, Bool-cases, inl, inr, ◌⊎◌, length-drop, drop-nil, drop-drop,
}
use cpp_epoll_chat.Session.{
  SendAnswer, accepted, would_block, interrupted, failed, SendBuffer, SendRun, also_written,
  FlushRun, then_written, FlushResult, complete, pending, error, SendEnd, done, returns, left_over,
  advance, send_loop, flush_loop,
}
use Prim.Native.Nat.{min}

-- The bytes that wait, in the order in which they were packed.
abbrev pub unsent : List SendBuffer → List ℕ
unsent [] = []
unsent (b ∷ queue) = left_over b ++ unsent queue

pub drop_all : (n : ℕ) (xs : List ℕ) → length xs ≤ n → drop n xs ≡ []
drop_all zero [] h = refl
drop_all zero (x ∷ xs) h = absurd (omega arith)
drop_all (suc n) [] h = refl
drop_all (suc n) (x ∷ xs) h = drop_all n xs (omega arith)

take-append-drop-min : (n k : ℕ) (xs : List ℕ) → k ≡ min n (length xs) → take n xs ++ drop k xs ≡ xs
take-append-drop-min zero k xs e = ap (λ (j : ℕ). drop j xs) {y = 0} (omega arith)
take-append-drop-min (suc n) k [] e = drop-nil k
take-append-drop-min (suc n) zero (x ∷ xs) e = absurd (omega arith)
take-append-drop-min (suc n) (suc k) (x ∷ xs) e =
    ap (◌∷◌ x) (take-append-drop-min n k xs (omega arith))

-- What one `send` took, and what is left of the buffer then.
left_over-advance :
    (n : ℕ) (b : SendBuffer) → take n (left_over b) ++ left_over (advance n b) ≡ left_over b
left_over-advance n b =
    let step = min n (length b.buffer - b.offset) in
    ap (◌++◌ (take n (left_over b))) (drop-drop b.offset step (b.offset + step) b.buffer refl)
    ∙ take-append-drop-min n step (left_over b) (omega (arith, length-drop b.offset b.buffer))

append-eq-nil : (xs ys : List ℕ) → xs ++ ys ≡ [] → xs ≡ []
append-eq-nil [] ys e = refl
append-eq-nil (x ∷ xs) ys e = cc

-- The inner loop writes a front part of what the buffer still holds. When it is done nothing is left;
-- when `flush` returns from it something is, and the result is not `Complete`.
pub record Sends (b : SendBuffer) (run : SendRun) : Type 0 where
  pub front : run.written ++ left_over run.buffer ≡ left_over b
  pub emptied : run.ends ≡ done → left_over run.buffer ≡ []
  pub stopped :
      (r : FlushResult) → run.ends ≡ returns r → (r ≢ complete) × (left_over run.buffer ≢ [])

pub left_over_ne : (b : SendBuffer) → b.offset < length b.buffer → left_over b ≢ []
left_over_ne b h e = omega (arith, length-drop b.offset b.buffer, ap length e)

returns-ne : (r q : FlushResult) → r ≢ complete → returns r ≡ returns q → q ≢ complete
returns-ne r q n e c = n (cc)

abbrev pub halts : SendEnd → SendBuffer → List SendAnswer → SendRun
halts e b answers = record { ends = e; buffer = b; written = []; answers = answers }

stops :
    (b : SendBuffer) (r : FlushResult) (answers : List SendAnswer)
    → r ≢ complete
    → ltb b.offset (length b.buffer) ≡ true
    → Sends b (halts (returns r) b answers)
stops b r answers n h = record {
  front = refl;
  emptied = λ e. cc;
  stopped = λ q e. (returns-ne r q n e, left_over_ne b (ltb→lt _ _ h));
}

used_up :
    (b : SendBuffer) (answers : List SendAnswer)
    → ltb b.offset (length b.buffer) ≡ false
    → Sends b (halts done b answers)
used_up b answers h = record {
  front = refl;
  emptied = λ e. drop_all b.offset b.buffer (ltb→le _ _ h);
  stopped = λ q e. cc;
}

more_sent :
    (n : ℕ) (b : SendBuffer) (run : SendRun)
    → Sends (advance n b) run
    → Sends b (also_written (take n (left_over b)) run)
more_sent n b run h = record {
  front =
      append_assoc (take n (left_over b)) run.written (left_over run.buffer)
      ∙ ap (◌++◌ (take n (left_over b))) h.front
      ∙ left_over-advance n b;
  emptied = h.emptied;
  stopped = h.stopped;
}

-- A round of the loop: what holds if the buffer is used up, and if it is not.
by_test :
    (b : SendBuffer) (answers : List SendAnswer)
    → (ltb b.offset (length b.buffer) ≡ true → Sends b (send_loop answers b))
    → Sends b (send_loop answers b)
unfolding send_loop
by_test b [] h = elim (Bool-cases (ltb b.offset (length b.buffer))) [
  | inl more ↦ h more
  | inr end ↦ rw (end, send_loop) (used_up b [] end)
]
by_test b (a ∷ rest) h = elim (Bool-cases (ltb b.offset (length b.buffer))) [
  | inl more ↦ h more
  | inr end ↦ rw (end, send_loop) (used_up b (a ∷ rest) end)
]

send_loop-Sends : (answers : List SendAnswer) (b : SendBuffer) → Sends b (send_loop answers b)
unfolding send_loop
send_loop-Sends [] b = by_test b [] λ more. rw (more, send_loop) (stops b pending [] (λ e. cc) more)
send_loop-Sends (accepted zero ∷ rest) b =
    by_test b (accepted zero ∷ rest)
      λ more. rw (more, send_loop) (stops b error rest (λ e. cc) more)
send_loop-Sends (accepted (suc m) ∷ rest) b =
    let ih = send_loop-Sends rest (advance (suc m) b) in
    by_test b (accepted (suc m) ∷ rest) λ more. rw (more, send_loop) (more_sent (suc m) b _ ih)
send_loop-Sends (would_block ∷ rest) b =
    by_test b (would_block ∷ rest)
      λ more. rw (more, send_loop) (stops b pending rest (λ e. cc) more)
send_loop-Sends (interrupted ∷ rest) b =
    let ih = send_loop-Sends rest b in
    by_test b (interrupted ∷ rest) λ more. rw (more, send_loop) ih
send_loop-Sends (failed ∷ rest) b =
    by_test b (failed ∷ rest) λ more. rw (more, send_loop) (stops b error rest (λ e. cc) more)

-- The outer loop keeps every byte in its order, and completes exactly when nothing waits.
pub record Flushes (queue : List SendBuffer) (run : FlushRun) : Type 0 where
  pub kept : run.written ++ unsent run.queue ≡ unsent queue
  pub emptied : run.result ≡ complete → run.queue ≡ []
  pub waiting : run.result ≢ complete → unsent run.queue ≢ []

pub SendEnd-cases : (e : SendEnd) → (e ≡ done) ⊎ ((r : FlushResult) × (e ≡ returns r))
SendEnd-cases done = inl refl
SendEnd-cases (returns r) = inr (r, refl)

pub flush_loop-Flushes :
    (queue : List SendBuffer) (answers : List SendAnswer) → Flushes queue (flush_loop queue answers)
unfolding flush_loop
flush_loop-Flushes [] answers = record {
  kept = refl;
  emptied = λ e. refl;
  waiting = λ n. absurd (n refl);
}
flush_loop-Flushes (b ∷ queue) answers =
    let run = send_loop answers b in
    let sends = send_loop-Sends answers b in
    elim (SendEnd-cases run.ends) [
      | inl e ↦ rw (e, flush_loop) (popped run sends e (flush_loop-Flushes queue run.answers))
      | inr (r, e) ↦ rw (e, flush_loop) (kept_back run sends r e)
    ]
  where
    popped :
        (run : SendRun)
        → Sends b run
        → run.ends ≡ done
        → Flushes queue (flush_loop queue run.answers)
        → Flushes (b ∷ queue) (then_written run.written (flush_loop queue run.answers))
    popped run sends e h = record {
      kept =
          append_assoc run.written _ _
          ∙ ap (◌++◌ run.written) h.kept
          ∙ ap (λ l. l ++ unsent queue)
              (sym (append-nil run.written)
                ∙ ap (◌++◌ run.written) (sym (sends.emptied e))
                ∙ sends.front);
      emptied = h.emptied;
      waiting = h.waiting;
    }

    kept_back :
        (run : SendRun)
        → Sends b run
        → (r : FlushResult) → run.ends ≡ returns r
        → Flushes (b ∷ queue) (record {
          result = r;
          queue = run.buffer ∷ queue;
          written = run.written;
          answers = run.answers;
        })
    kept_back run sends r e = record {
      kept =
          sym (append_assoc run.written _ (unsent queue)) ∙ ap (λ l. l ++ unsent queue) sends.front;
      emptied = λ c. absurd ((sends.stopped r e).0 c);
      waiting = λ n z. (sends.stopped r e).1 (append-eq-nil _ (unsent queue) z);
    }
