-- ===== src/Message/RoundTrip.antt =====
-- What `serialize` of protocol/Message.h writes, and what `parse` reads from it.
use cpp_epoll_chat.Base.{ℕ, ◌%◌, ◌^◌, ◌<◌, ◌≡◌, sym, ap, ◌∙◌, subst, arith}
use cpp_epoll_chat.Base.{List, [], ◌∷◌, ◌++◌, append_assoc, append-nil, some, length}
use cpp_epoll_chat.Base.{All}
use cpp_epoll_chat.Base.Bytes.{le_bytes}
use cpp_epoll_chat.Codec.{Reader, reader, put, take_int, take_str}
use cpp_epoll_chat.Codec.Reading.{
  At, reader-At, >>=-some, take_int_ahead, text_bytes, put_str_lem, take_str_ahead,
}
use cpp_epoll_chat.Message.{
  Message, put_message, put_messages, serialize, take_message, take_messages, parse,
}

-- `rest` lies ahead of the reader.
abbrev pub Ahead : List ℕ → Reader → Type 0
Ahead rest r = (front : List ℕ) × At front rest r

-- A message whose fields fit the wire: 64-bit patterns, and texts whose lengths fit 32 bits.
pub record Fits (m : Message) : Type 0 where
  pub id : m.id < 2 ^ 64
  pub sender_id : m.sender_id < 2 ^ 64
  pub created_epoch : m.created_epoch < 2 ^ 64
  pub sender_nick : length m.sender_nick < 2 ^ 32
  pub content : length m.content < 2 ^ 32

abbrev pub message_bytes : Message → List ℕ
message_bytes m =
    le_bytes 8 m.id
    ++ (le_bytes 8 m.sender_id
        ++ (le_bytes 8 m.created_epoch ++ (text_bytes m.sender_nick ++ text_bytes m.content)))

abbrev pub wire : List Message → List ℕ
wire [] = []
wire (m ∷ ms) = message_bytes m ++ wire ms

put_message_lem : (out : List ℕ) (m : Message) → Fits m → put_message out m ≡ out ++ message_bytes m
unfolding put_message put
put_message_lem out m h =
    rw (put_str_lem _ m.content h.content, put_str_lem _ m.sender_nick h.sender_nick)
      (simp append_assoc)

put_messages_lem :
    (out : List ℕ) (ms : List Message) → All Fits ms → put_messages out ms ≡ out ++ wire ms
unfolding put_messages
put_messages_lem out [] h = sym (append-nil out)
put_messages_lem out (m ∷ ms) h =
    put_messages_lem (put_message out m) ms h.1
    ∙ rw (put_message_lem out m h.0) (append_assoc out (message_bytes m) (wire ms))

-- The layout: the count, then the messages one after the other.
pub serialize_lem :
    (ms : List Message)
    → length ms < 2 ^ 32
    → All Fits ms
    → serialize ms ≡ le_bytes 4 (length ms) ++ wire ms
unfolding serialize put
serialize_lem ms small h =
    let e : length ms % 2 ^ 32 ≡ length ms = omega arith in
    put_messages_lem (put [] 4 (length ms % 2 ^ 32)) ms h ∙ rw e

take_message-Ahead :
    (m : Message) (rest : List ℕ) (r : Reader)
    → Fits m
    → Ahead (message_bytes m ++ rest) r
    → (r' : Reader) × (take_message r ≡ some (m, r')) × Ahead rest r'
unfolding take_message
take_message-Ahead m rest r h (front, a) =
    let nick = text_bytes m.sender_nick in
    let content = text_bytes m.content in
    let a0 =
      subst (λ l. At front l r)
        (append_assoc (le_bytes 8 m.id) _ rest
          ∙ ap (◌++◌ (le_bytes 8 m.id)) (
              append_assoc (le_bytes 8 m.sender_id) _ rest
              ∙ ap (◌++◌ (le_bytes 8 m.sender_id)) (
                  append_assoc (le_bytes 8 m.created_epoch) _ rest
                  ∙ ap (◌++◌ (le_bytes 8 m.created_epoch)) (append_assoc nick content rest))))
        a in
    let (r1, e1, a1) = take_int_ahead 8 m.id front _ r (omega (arith, h.id)) a0 in
    let (r2, e2, a2) = take_int_ahead 8 m.sender_id _ _ r1 (omega (arith, h.sender_id)) a1 in
    let (r3, e3, a3) =
      take_int_ahead 8 m.created_epoch _ _ r2 (omega (arith, h.created_epoch)) a2 in
    let (r4, e4, a4) = take_str_ahead m.sender_nick _ _ r3 h.sender_nick a3 in
    let (r5, e5, a5) = take_str_ahead m.content _ rest r4 h.content a4 in
    (
      r5,
      >>=-some (take_int 8) _ r e1
          ∙ >>=-some (take_int 8) _ r1 e2
          ∙ >>=-some (take_int 8) _ r2 e3
          ∙ >>=-some take_str _ r3 e4
          ∙ >>=-some take_str _ r4 e5,
      (_, a5),
    )

take_messages-Ahead :
    (ms out : List Message) (rest : List ℕ) (r : Reader)
    → All Fits ms
    → Ahead (wire ms ++ rest) r
    → (r' : Reader) × (take_messages (length ms) out r ≡ some (out ++ ms, r')) × Ahead rest r'
unfolding take_messages
take_messages-Ahead [] out rest r h a = (r, rw append-nil, a)
take_messages-Ahead (m ∷ ms) out rest r h (front, a) =
    let a0 = subst (λ l. At front l r) (append_assoc (message_bytes m) (wire ms) rest) a in
    let (r1, e1, a1) = take_message-Ahead m (wire ms ++ rest) r h.0 (front, a0) in
    let (r2, e2, a2) = take_messages-Ahead ms (out ++ (m ∷ [])) rest r1 h.1 a1 in
    (r2, >>=-some take_message _ r e1 ∙ e2 ∙ rw (append_assoc out (m ∷ []) ms), a2)

-- A list of messages that was serialised is parsed back, whatever bytes follow it. The list is below
-- 2^32 long, each message fits the wire, and the buffer is below 2^63 bytes.
pub parse-serialize :
    (ms : List Message) (rest : List ℕ)
    → length ms < 2 ^ 32
    → All Fits ms
    → length (serialize ms ++ rest) < 2 ^ 63
    → parse (serialize ms ++ rest) ≡ some ms
unfolding parse
parse-serialize ms rest small h size =
    let body = serialize ms ++ rest in
    let a0 =
      subst (λ l. At [] l (reader body))
        (ap (λ l. l ++ rest) (serialize_lem ms small h)
          ∙ append_assoc (le_bytes 4 (length ms)) (wire ms) rest)
        (reader-At body size) in
    let (r1, e1, a1) = take_int_ahead 4 (length ms) [] _ (reader body) (omega arith) a0 in
    let (r2, e2, a2) = take_messages-Ahead ms [] rest r1 h (_, a1) in
    let e = >>=-some (take_int 4) (λ count. take_messages count []) (reader body) e1 ∙ e2 in
    rw (e, parse)
