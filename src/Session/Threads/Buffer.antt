-- ===== src/Session/Threads/Buffer.antt =====
-- The inner loop of `flush` (server/src/network/Session.cpp) as the steps of its thread.
use cpp_epoll_chat.Base.{
  ℕ, zero, suc, ◌+◌, ◌-◌, ◌≡◌, refl, sym, ap, ◌∙◌, List, [], ◌∷◌, ◌++◌, length, take, drop, true,
  false, append-nil, append_assoc, arith, Bool-cases, inl, inr, ==_refl, ltb, ltb→lt, ltb→le,
  length-drop, drop-drop,
}
use cpp_epoll_chat.Session.{
  SendAnswer, accepted, would_block, interrupted, failed, SendBuffer, SendRun, also_written,
  FlushResult, pending, error, done, returns, left_over, advance, send_loop,
}
use cpp_epoll_chat.Session.Flush.{left_over_ne, drop_all, halts}
use cpp_epoll_chat.Session.Threads.{
  Point, outside, sends, pops, Shared, stands, moves, Steps, here, after, writes, blocks_or_fails,
  has_sent,
}
use Prim.Native.Nat.{min}

pub Steps-then : {s t u : Shared} → Steps s t → Steps t u → Steps s u
Steps-then (here s) steps = steps
Steps-then (after step rest) steps = after step (Steps-then rest steps)

pub stands_self : (t : ℕ) (p : Point) (at : ℕ → Point) → stands t p at t ≡ p
stands_self t p at = rw (==_refl t) refl

take-min : (n k : ℕ) (xs : List ℕ) → k ≡ min n (length xs) → take k xs ≡ take n xs
take-min zero k xs e = ap (λ (j : ℕ). take j xs) {y = 0} (omega arith)
take-min (suc n) zero [] e = refl
take-min (suc n) (suc k) [] e = refl
take-min (suc n) zero (x ∷ xs) e = absurd (omega arith)
take-min (suc n) (suc k) (x ∷ xs) e = ap (◌∷◌ x) (take-min n k xs (omega arith))

-- Where the inner loop, begun by the thread `t` in `s`, gets.
pub record Sent (t : ℕ) (rest : List (List ℕ)) (s : Shared) (run : SendRun) : Type 0 where
  pub reached : Shared
  pub steps : Steps s reached
  pub queue : reached.queue ≡ left_over run.buffer ∷ rest
  pub written : reached.written ≡ s.written ++ run.written
  pub pops : run.ends ≡ done → reached.at t ≡ pops
  pub leaves :
      (r : FlushResult)
      → run.ends ≡ returns r
      → (reached.at t ≡ outside) × (reached.sending ≡ false)

module _ (t : ℕ) (rest : List (List ℕ)) where
  stops :
      (b : SendBuffer) (r : FlushResult) (answers : List SendAnswer) (s : Shared)
      → s.at t ≡ sends
      → s.queue ≡ left_over b ∷ rest
      → ltb b.offset (length b.buffer) ≡ true
      → Sent t rest s (halts (returns r) b answers)
  stops b r answers s e f h = record {
    reached = moves t outside (record s { sending = false; stalled = true });
    steps =
        after (blocks_or_fails t (left_over b) rest s e f (left_over_ne b (ltb→lt _ _ h))) (here _);
    queue = f;
    written = sym (append-nil s.written);
    pops = λ q. cc;
    leaves = λ q i. (stands_self t outside s.at, refl);
  }

  used_up :
      (b : SendBuffer) (answers : List SendAnswer) (s : Shared)
      → s.at t ≡ sends
      → s.queue ≡ left_over b ∷ rest
      → ltb b.offset (length b.buffer) ≡ false
      → Sent t rest s (halts done b answers)
  used_up b answers s e f h = record {
    reached = moves t pops s;
    steps =
        after
          (has_sent t rest s e (f ∙ ap (λ x. x ∷ rest) (drop_all b.offset b.buffer (ltb→le _ _ h))))
          (here _);
    queue = f;
    written = sym (append-nil s.written);
    pops = λ q. stands_self t pops s.at;
    leaves = λ q i. cc;
  }

  more-Sent :
      (m : ℕ) (b : SendBuffer) (run : SendRun) (s : Shared)
      → s.at t ≡ sends
      → s.queue ≡ left_over b ∷ rest
      → ltb b.offset (length b.buffer) ≡ true
      → ((u : Shared)
          → u.at t ≡ sends
          → u.queue ≡ left_over (advance (suc m) b) ∷ rest
          → Sent t rest u run)
      → Sent t rest s (also_written (take (suc m) (left_over b)) run)
  more-Sent m b run s e f h go =
      let far = ltb→lt _ _ h in
      let size = length-drop b.offset b.buffer in
      let k = min (suc m) (length b.buffer - b.offset) in
      let u = moves t sends (record s {
        queue = drop k (left_over b) ∷ rest;
        written = s.written ++ take k (left_over b);
      }) in
      let sent =
        go u (stands_self t sends s.at)
          (ap (λ x. x ∷ rest) (sym (drop-drop b.offset k (b.offset + k) b.buffer refl))) in
      record {
        reached = sent.reached;
        steps = after (writes t k (left_over b) rest s e f (omega arith) (omega arith)) sent.steps;
        queue = sent.queue;
        written =
            sent.written
            ∙ append_assoc s.written (take k (left_over b)) run.written
            ∙ ap (λ x. s.written ++ (x ++ run.written))
                (take-min (suc m) k (left_over b) (omega arith));
        pops = sent.pops;
        leaves = sent.leaves;
      }

  by_test :
      (b : SendBuffer) (answers : List SendAnswer) (s : Shared)
      → s.at t ≡ sends
      → s.queue ≡ left_over b ∷ rest
      → (ltb b.offset (length b.buffer) ≡ true → Sent t rest s (send_loop answers b))
      → Sent t rest s (send_loop answers b)
  unfolding send_loop
  by_test b [] s e f h = elim (Bool-cases (ltb b.offset (length b.buffer))) [
    | inl more ↦ h more
    | inr end ↦ rw (end, send_loop) (used_up b [] s e f end)
  ]
  by_test b (a ∷ left) s e f h = elim (Bool-cases (ltb b.offset (length b.buffer))) [
    | inl more ↦ h more
    | inr end ↦ rw (end, send_loop) (used_up b (a ∷ left) s e f end)
  ]

  pub send_loop-Sent :
      (answers : List SendAnswer) (b : SendBuffer) (s : Shared)
      → s.at t ≡ sends
      → s.queue ≡ left_over b ∷ rest
      → Sent t rest s (send_loop answers b)
  unfolding send_loop
  send_loop-Sent [] b s e f =
      by_test b [] s e f λ more. rw (more, send_loop) (stops b pending [] s e f more)
  send_loop-Sent (accepted zero ∷ left) b s e f =
      by_test b (accepted zero ∷ left) s e f
        λ more. rw (more, send_loop) (stops b error left s e f more)
  send_loop-Sent (accepted (suc m) ∷ left) b s e f =
      let ih = send_loop-Sent left (advance (suc m) b) in
      by_test b (accepted (suc m) ∷ left) s e f
        λ more. rw (more, send_loop) (more-Sent m b _ s e f more ih)
  send_loop-Sent (would_block ∷ left) b s e f =
      by_test b (would_block ∷ left) s e f
        λ more. rw (more, send_loop) (stops b pending left s e f more)
  send_loop-Sent (interrupted ∷ left) b s e f =
      let ih = send_loop-Sent left b s e f in
      by_test b (interrupted ∷ left) s e f λ more. rw (more, send_loop) ih
  send_loop-Sent (failed ∷ left) b s e f =
      by_test b (failed ∷ left) s e f λ more. rw (more, send_loop) (stops b error left s e f more)
