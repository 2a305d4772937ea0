-- ===== src/Session/Stream.antt =====
-- The byte stream of a connection through `pack` and `flush` (server/src/network/Session.cpp).
use cpp_epoll_chat.Base.{ℕ, ◌≡◌, ◌≢◌, refl, sym, ap, ◌∙◌}
use cpp_epoll_chat.Base.{List, [], ◌∷◌, ◌++◌, append_assoc, append-nil, false}
use cpp_epoll_chat.Base.{Bool-cases, inl, inr, ◌⊎◌}
use cpp_epoll_chat.Session.{
  Session, SendBuffer, FlushResult, complete, pending, error, left_over, flush_loop, pack, flush,
}
use cpp_epoll_chat.Session.Flush.{unsent, flush_loop-Flushes}

-- The abstract view of the sending side: the bytes that the peer has got or is due, in order.
abbrev pub stream : Session → List ℕ
stream s = s.sent ++ unsent s.send_queue

unsent-append : (xs ys : List SendBuffer) → unsent (xs ++ ys) ≡ unsent xs ++ unsent ys
unsent-append [] ys = refl
unsent-append (x ∷ xs) ys =
    ap (◌++◌ (left_over x)) (unsent-append xs ys)
    ∙ sym (append_assoc (left_over x) (unsent xs) (unsent ys))

pub stream-pack : (bytes : List ℕ) (s : Session) → stream (pack bytes s) ≡ stream s ++ bytes
unfolding pack
stream-pack bytes s =
    ap (◌++◌ s.sent)
      (unsent-append s.send_queue _ ∙ ap (◌++◌ (unsent s.send_queue)) (append-nil bytes))
    ∙ sym (append_assoc s.sent (unsent s.send_queue) bytes)

pub stream-flush : (s : Session) → stream (flush s).1 ≡ stream s
unfolding flush
stream-flush s = elim (Bool-cases s.sending) [
  | inl busy ↦ rw (busy, flush) refl
  | inr free ↦
      rw (free, flush)
        (append_assoc s.sent _ _
          ∙ ap (◌++◌ s.sent) (flush_loop-Flushes s.send_queue s.outgoing).kept)
]

completes : (r : FlushResult) → (r ≡ complete) ⊎ (r ≢ complete)
completes complete = inl refl
completes pending = inr λ e. cc
completes error = inr λ e. cc

-- What the code does to a session's sending side.
pub data SendCall : Type 0 where
  packs : List ℕ → SendCall
  flushes : SendCall

pub send_calls : List SendCall → Session → Session
send_calls [] s = s
send_calls (packs bytes ∷ calls) s = send_calls calls (pack bytes s)
send_calls (flushes ∷ calls) s = send_calls calls (flush s).1

abbrev pub packed : List SendCall → List ℕ
packed [] = []
packed (packs bytes ∷ calls) = bytes ++ packed calls
packed (flushes ∷ calls) = packed calls

-- Through any calls of `pack` and `flush` and any answers of the kernel, the bytes that it accepted
-- followed by those that wait are the old ones and then the packed buffers in order: no byte is lost,
-- sent twice or out of order.
pub stream-send_calls :
    (calls : List SendCall) (s : Session) → stream (send_calls calls s) ≡ stream s ++ packed calls
unfolding send_calls
stream-send_calls [] s = sym (append-nil (stream s))
stream-send_calls (packs bytes ∷ calls) s =
    stream-send_calls calls (pack bytes s)
    ∙ ap (λ l. l ++ packed calls) (stream-pack bytes s)
    ∙ append_assoc (stream s) bytes (packed calls)
stream-send_calls (flushes ∷ calls) s =
    stream-send_calls calls (flush s).1 ∙ ap (λ l. l ++ packed calls) (stream-flush s)

-- If no other thread is in `flush`, either it answers `Complete` and the queue is empty, or it answers
-- something else and bytes still wait. It leaves `sending_` clear.
pub flush_result :
    (s : Session)
    → s.sending ≡ false
    → ((((flush s).0 ≡ complete) × ((flush s).1.send_queue ≡ []))
        ⊎ (((flush s).0 ≢ complete) × (unsent (flush s).1.send_queue ≢ [])))
      × ((flush s).1.sending ≡ false)
unfolding flush
flush_result s free =
    let run = flush_loop s.send_queue s.outgoing in
    let h = flush_loop-Flushes s.send_queue s.outgoing in
    rw (free, flush)
      (
        elim (completes run.result) [ inl e ↦ inl (e, h.emptied e) | inr n ↦ inr (n, h.waiting n) ],
        refl,
      )
