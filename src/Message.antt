-- ===== src/Message.antt =====
-- protocol/Message.h: chat messages and their wire format. Ids and times are `int64_t`s, kept as their
-- 64-bit patterns; texts are bytes.
pub mod RoundTrip
pub mod Canonical
use cpp_epoll_chat.Base.{ℕ, zero, suc, ◌%◌, ◌^◌, List, [], ◌∷◌, ◌++◌, Option, none, some, length}
use cpp_epoll_chat.Codec.{Read, Reader, reader, ◌>>=◌, pure, put, put_str, take_int, take_str}

pub record Message : Type 0 where
  pub id : ℕ
  pub sender_id : ℕ
  pub created_epoch : ℕ
  pub sender_nick : List ℕ
  pub content : List ℕ

-- One round of the loop of `serialize`.
unfoldable pub put_message : List ℕ → Message → List ℕ
put_message out m =
    put_str (put_str (put (put (put out 8 m.id) 8 m.sender_id) 8 m.created_epoch) m.sender_nick)
      m.content

unfoldable pub put_messages : List ℕ → List Message → List ℕ
put_messages out [] = out
put_messages out (m ∷ ms) = put_messages (put_message out m) ms

-- The count is narrowed to `uint32_t`.
unfoldable pub serialize : List Message → List ℕ
unfolding put_messages
serialize ms = put_messages (put [] 4 (length ms % 2 ^ 32)) ms

-- One round of the loop of `parse`.
unfoldable pub take_message : Read Message
take_message = do
  id ← take_int 8
  sender_id ← take_int 8
  created_epoch ← take_int 8
  sender_nick ← take_str
  content ← take_str
  pure (record {
    id = id;
    sender_id = sender_id;
    created_epoch = created_epoch;
    sender_nick = sender_nick;
    content = content;
  })

-- The loop of `parse`, with the rounds left and the messages pushed so far.
unfoldable pub take_messages : ℕ → List Message → Read (List Message)
take_messages zero out = pure out
take_messages (suc rounds) out = take_message >>= λ m. take_messages rounds (out ++ (m ∷ []))

-- `none` is a return of `false`: the caller then drops `out`. What `reserve` does when the memory runs
-- out is not modelled.
unfoldable pub parse : List ℕ → Option (List Message)
parse body = elim ((take_int 4 >>= λ count. take_messages count []) (reader body)) [
  | none ↦ none
  | some (out, _) ↦ some out
]
