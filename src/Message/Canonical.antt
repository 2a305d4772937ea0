-- ===== src/Message/Canonical.antt =====
-- What `parse` of protocol/Message.h accepts.
use cpp_epoll_chat.Base.{ℕ, zero, suc, ◌^◌, ◌<◌, ◌≡◌, refl, sym, ap, ◌∙◌, subst, arith}
use cpp_epoll_chat.Base.{List, [], ◌∷◌, ◌++◌, append_assoc, append-nil, some, length}
use cpp_epoll_chat.Base.{All, Option-cases, inl, inr}
use cpp_epoll_chat.Base.Bytes.{IsByte, le_bytes}
use cpp_epoll_chat.Codec.{Reader, reader, take_int, take_str, ◌>>=◌}
use cpp_epoll_chat.Codec.Reading.{
  reader-At, >>=-eq-some, pure-eq-some, take_int_taken, text_bytes, take_str_taken,
}
use cpp_epoll_chat.Message.{Message, serialize, take_message, take_messages, parse}
use cpp_epoll_chat.Message.RoundTrip.{Ahead, Fits, message_bytes, wire, serialize_lem}

-- Five cuts, one after the other, make up the front of the list.
five_cuts :
    {r0 r1 r2 r3 r4 : List ℕ} (a b c d e r5 : List ℕ)
    → r0 ≡ a ++ r1
    → r1 ≡ b ++ r2
    → r2 ≡ c ++ r3
    → r3 ≡ d ++ r4
    → r4 ≡ e ++ r5
    → r0 ≡ (a ++ (b ++ (c ++ (d ++ e)))) ++ r5
five_cuts a b c d e r5 c1 c2 c3 c4 c5 = rw (c1, c2, c3, c4, c5) (simp append_assoc)

take_message_taken :
    (rest : List ℕ) (m : Message) (r r' : Reader)
    → Ahead rest r
    → All IsByte rest
    → take_message r ≡ some (m, r')
    → (rest' : List ℕ) × (rest ≡ message_bytes m ++ rest')
      × Fits m
      × All IsByte rest'
      × Ahead rest' r'
unfolding take_message
take_message_taken rest m r r' (front, a) bytes e =
    let (id, r1, e1, k1) = >>=-eq-some (take_int 8) _ r e in
    let (sender_id, r2, e2, k2) = >>=-eq-some (take_int 8) _ r1 k1 in
    let (epoch, r3, e3, k3) = >>=-eq-some (take_int 8) _ r2 k2 in
    let (nick, r4, e4, k4) = >>=-eq-some take_str _ r3 k3 in
    let (content, r5, e5, k5) = >>=-eq-some take_str _ r4 k4 in
    let (rest1, c1, s1, h1, a1) = take_int_taken 8 front rest id r r1 a (omega arith) bytes e1 in
    let (rest2, c2, s2, h2, a2) = take_int_taken 8 _ rest1 sender_id r1 r2 a1 (omega arith) h1 e2 in
    let (rest3, c3, s3, h3, a3) = take_int_taken 8 _ rest2 epoch r2 r3 a2 (omega arith) h2 e3 in
    let (rest4, c4, s4, _, h4, a4) = take_str_taken _ rest3 nick r3 r4 a3 h3 e4 in
    let (rest5, c5, s5, _, h5, a5) = take_str_taken _ rest4 content r4 r5 a4 h4 e5 in
    let found : Message = record {
      id = id;
      sender_id = sender_id;
      created_epoch = epoch;
      sender_nick = nick;
      content = content;
    } in
    let (same, end) = pure-eq-some found m r5 r' k5 in
    subst
      (λ (x : Message).
        (rest' : List ℕ) × (rest ≡ message_bytes x ++ rest')
        × Fits x
        × All IsByte rest'
        × Ahead rest' r')
      same
      (
        rest5,
        five_cuts (le_bytes 8 id) (le_bytes 8 sender_id) (le_bytes 8 epoch) (text_bytes nick)
            (text_bytes content) rest5 c1 c2 c3 c4 c5,
        record {
          id = omega (arith, s1);
          sender_id = omega (arith, s2);
          created_epoch = omega (arith, s3);
          sender_nick = s4;
          content = s5;
        },
        h5,
        subst (Ahead rest5) end (_, a5),
      )

take_messages_taken :
    (rounds : ℕ) (out ms : List Message) (rest : List ℕ) (r r' : Reader)
    → Ahead rest r
    → All IsByte rest
    → take_messages rounds out r ≡ some (ms, r')
    → (new : List Message) × (rest' : List ℕ) × (ms ≡ out ++ new)
      × (length new ≡ rounds)
      × (rest ≡ wire new ++ rest')
      × All Fits new
unfolding take_messages
take_messages_taken zero out ms rest r r' a bytes e =
    ([], rest, sym (pure-eq-some out ms r r' e).0 ∙ sym (append-nil out), refl, refl, tt)
take_messages_taken (suc rounds) out ms rest r r' a bytes e =
    let (m, r1, e1, k) = >>=-eq-some take_message _ r e in
    let (mid, c1, h1, b1, a1) = take_message_taken rest m r r1 a bytes e1 in
    let (new, rest', same, len, c2, h2) =
      take_messages_taken rounds (out ++ (m ∷ [])) ms mid r1 r' a1 b1 k in
    (
      m ∷ new,
      rest',
      same ∙ append_assoc out (m ∷ []) new,
      ap suc len,
      c1 ∙ ap (◌++◌ (message_bytes m)) c2 ∙ sym (append_assoc (message_bytes m) (wire new) rest'),
      (h1, h2),
    )

-- Whatever bytes arrive, below 2^63 of them: if they parse, they begin with the serialisation of the
-- messages that were read, and these fit the wire.
pub parse_canonical :
    (body : List ℕ) (ms : List Message)
    → All IsByte body
    → length body < 2 ^ 63
    → parse body ≡ some ms
    → (rest : List ℕ) × (body ≡ serialize ms ++ rest) × (length ms < 2 ^ 32) × All Fits ms
unfolding parse
parse_canonical body ms bytes size e =
    elim (Option-cases ((take_int 4 >>= λ count. take_messages count []) (reader body))) [
      | inl failed ↦ cc (rw (failed, parse) at e)
      | inr ((out, end), run) ↦
          let (count, r1, e1, k) = >>=-eq-some (take_int 4) _ (reader body) run in
          let (mid, c1, s1, b1, a1) =
            take_int_taken 4 [] body count (reader body) r1 (reader-At body size) (omega arith)
              bytes e1 in
          let (new, rest, same, len, c2, h) =
            take_messages_taken count [] out mid r1 end (_, a1) b1 k in
          let out_ms : out ≡ ms = cc (rw (run, parse) at e) in
          let new_ms : new ≡ ms = sym same ∙ out_ms in
          let fits : All Fits ms = subst (All Fits) new_ms h in
          let len' : length ms ≡ count = ap length (sym new_ms) ∙ len in
          let few : length ms < 2 ^ 32 = omega (arith, len', s1) in
          (
            rest,
            c1
                ∙ rw (c2, serialize_lem ms few fits, ← len', ← new_ms)
                    (sym (append_assoc _ (wire new) rest)),
            few,
            fits,
          )
    ]
