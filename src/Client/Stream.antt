-- ===== src/Client/Stream.antt =====
-- What `recv_all` and `flush` of client/src/Socket.cpp do to the bytes of the connection.
use cpp_epoll_chat.Base.{
  ℕ, zero, suc, ◌-◌, ◌≤◌, ◌<◌, ◌≡◌, ◌≢◌, refl, sym, ap, ◌∙◌, subst, List, [], ◌∷◌, ◌++◌,
  append_assoc, append-nil, length, take, drop, Bool, true, false, Option, none, some, leb, leb→le,
  Bool-cases, inl, inr, ◌⊎◌, arith, length-append, take-append, take-append-drop, drop-append,
}
use cpp_epoll_chat.Client.Socket.{
  Arrival, arrives, closes, recv_interrupted, recv_failed, Socket, kept, behind, recv_all, SendAll,
  also, send_all, flush,
}
use cpp_epoll_chat.Session.{SendAnswer, accepted, would_block, interrupted, failed}

-- The bytes that the connection still brings, before it ends.
abbrev pub coming : List Arrival → List ℕ
coming [] = []
coming (arrives b bs ∷ rest) = b ∷ (bs ++ coming rest)
coming (closes ∷ rest) = []
coming (recv_interrupted ∷ rest) = coming rest
coming (recv_failed ∷ rest) = []

pub coming-kept : (bs : List ℕ) (rest : List Arrival) → coming (kept bs rest) ≡ bs ++ coming rest
coming-kept [] rest = refl
coming-kept (b ∷ bs) rest = refl

take-append_le :
    (k : ℕ) (xs ys : List ℕ) → length xs ≤ k → take k (xs ++ ys) ≡ xs ++ take (k - length xs) ys
take-append_le k [] ys h = ap (λ (j : ℕ). take j ys) {x = k} {y = k - 0} (omega arith)
take-append_le zero (x ∷ xs) ys h = absurd (omega arith)
take-append_le (suc k) (x ∷ xs) ys h = ap (◌∷◌ x) (
    take-append_le k xs ys (omega arith)
    ∙ ap (λ (j : ℕ). xs ++ take j ys) {x = k - length xs} {y = suc k - suc (length xs)}
        (omega arith))

drop-append_le :
    (k : ℕ) (xs ys : List ℕ) → length xs ≤ k → drop k (xs ++ ys) ≡ drop (k - length xs) ys
drop-append_le k [] ys h = ap (λ (j : ℕ). drop j ys) {x = k} {y = k - 0} (omega arith)
drop-append_le zero (x ∷ xs) ys h = absurd (omega arith)
drop-append_le (suc k) (x ∷ xs) ys h =
    drop-append_le k xs ys (omega arith)
    ∙ ap (λ (j : ℕ). drop j ys) {x = k - length xs} {y = suc k - suc (length xs)} (omega arith)

behind-none :
    (bytes : List ℕ) (r : Option (List ℕ) × List Arrival) → r.0 ≡ none → (behind bytes r).0 ≡ none
behind-none bytes (none, rest) h = refl
behind-none bytes (some more, rest) h = cc

-- The bytes are there: they are read, whatever the portions in which they arrive.
pub recv_all_enough :
    (n : ℕ) (arrivals : List Arrival)
    → n ≤ length (coming arrivals)
    → (rest : List Arrival) × (recv_all n arrivals ≡ (some (take n (coming arrivals)), rest))
      × (coming rest ≡ drop n (coming arrivals))
unfolding recv_all
recv_all_enough zero arrivals h = (arrivals, refl, refl)
recv_all_enough (suc n) [] h = absurd (omega arith)
recv_all_enough (suc n) (closes ∷ rest) h = absurd (omega arith)
recv_all_enough (suc n) (recv_failed ∷ rest) h = absurd (omega arith)
recv_all_enough (suc n) (recv_interrupted ∷ rest) h = recv_all_enough (suc n) rest h
recv_all_enough (suc n) (arrives b bs ∷ rest) h = elim (Bool-cases (leb (length bs) n)) [
  | inl le ↦
      let fits = leb→le (length bs) n le in
      let (rest', e, c) =
        recv_all_enough (n - length bs) rest (omega (arith, length-append bs (coming rest))) in
      (
        rest',
        rw (le, recv_all) (rw e (rw (take-append_le n bs (coming rest) fits) refl)),
        c ∙ sym (drop-append_le n bs (coming rest) fits),
      )
  | inr gt ↦
      let fits : n ≤ length bs = ground arith in
      (
        kept (drop n bs) rest,
        rw (gt, recv_all) (rw (take-append n bs (coming rest) fits) refl),
        coming-kept (drop n bs) rest ∙ sym (drop-append n bs (coming rest) fits),
      )
]

-- They are not: `recv_all` fails.
pub recv_all_short :
    (n : ℕ) (arrivals : List Arrival)
    → length (coming arrivals) < n
    → (recv_all n arrivals).0 ≡ none
unfolding recv_all
recv_all_short zero arrivals h = absurd (omega arith)
recv_all_short (suc n) [] h = refl
recv_all_short (suc n) (closes ∷ rest) h = refl
recv_all_short (suc n) (recv_failed ∷ rest) h = refl
recv_all_short (suc n) (recv_interrupted ∷ rest) h = recv_all_short (suc n) rest h
recv_all_short (suc n) (arrives b bs ∷ rest) h = elim (Bool-cases (leb (length bs) n)) [
  | inl le ↦
      let fits = leb→le (length bs) n le in
      let ih =
        recv_all_short (n - length bs) rest (omega (arith, length-append bs (coming rest))) in
      rw (le, recv_all) (behind-none (b ∷ bs) _ ih)
  | inr gt ↦ absurd (ground (arith, length-append bs (coming rest)))
]

-- What `send_all` wrote of the bytes: all of them if it returns `true`, and a part that lacks some at the
-- end if it returns `false`.
abbrev pub Sends : List ℕ → Bool → List ℕ → Type 0
Sends bytes ok written =
    ((ok ≡ true) × (written ≡ bytes))
    ⊎ ((ok ≡ false) × (lost : List ℕ) × (lost ≢ []) × (written ++ lost ≡ bytes))

Sends-behind :
    (front bytes : List ℕ) (r : SendAll)
    → Sends bytes r.ok r.written
    → Sends (front ++ bytes) (also front r).ok (also front r).written
Sends-behind front bytes r (inl (ok, all)) = inl (ok, ap (◌++◌ front) all)
Sends-behind front bytes r (inr (ok, lost, some', e)) =
    inr (ok, lost, some', append_assoc front r.written lost ∙ ap (◌++◌ front) e)

stops : (b : ℕ) (bs : List ℕ) → Sends (b ∷ bs) false []
stops b bs = inr (refl, b ∷ bs, (λ e. cc), refl)

pub send_all-Sends :
    (bytes : List ℕ) (answers : List SendAnswer)
    → Sends bytes (send_all bytes answers).ok (send_all bytes answers).written
unfolding send_all
send_all-Sends [] answers = inl (refl, refl)
send_all-Sends (b ∷ bs) [] = stops b bs
send_all-Sends (b ∷ bs) (accepted zero ∷ rest) = stops b bs
send_all-Sends (b ∷ bs) (accepted (suc m) ∷ rest) =
    subst
      (λ l.
        Sends (b ∷ l) (send_all (drop m bs) rest).ok
          (b ∷ (take m bs ++ (send_all (drop m bs) rest).written)))
      (take-append-drop m bs)
      (Sends-behind (b ∷ take m bs) (drop m bs) (send_all (drop m bs) rest)
        (send_all-Sends (drop m bs) rest))
send_all-Sends (b ∷ bs) (would_block ∷ rest) = stops b bs
send_all-Sends (b ∷ bs) (interrupted ∷ rest) = send_all-Sends (b ∷ bs) rest
send_all-Sends (b ∷ bs) (failed ∷ rest) = stops b bs

-- How a flush may end.
abbrev pub Flushes : Socket → Bool → Socket → Type 0
Flushes s ok s' =
    (s'.send_buf ≡ [])
    × (((ok ≡ true) × (s'.sent ≡ s.sent ++ s.send_buf))
        ⊎ ((ok ≡ false)
            × (front : List ℕ) × (lost : List ℕ) × (lost ≢ [])
            × (front ++ lost ≡ s.send_buf)
            × (s'.sent ≡ s.sent ++ front)))

flush_cases :
    (bytes : List ℕ) (arrivals : List Arrival) (answers : List SendAnswer) (sent : List ℕ)
    → let s : Socket = record {
      send_buf = bytes;
      arrivals = arrivals;
      answers = answers;
      sent = sent;
    } in
      Flushes s (flush s).0 (flush s).1
unfolding flush
flush_cases [] arrivals answers sent = (refl, inl (refl, sym (append-nil sent)))
flush_cases (b ∷ bs) arrivals answers sent = (
  refl,
  elim (send_all-Sends (b ∷ bs) answers) [
    | inl (ok, all) ↦ inl (ok, ap (◌++◌ sent) all)
    | inr (ok, lost, some', e) ↦ inr (ok, (send_all (b ∷ bs) answers).written, lost, some', e, refl)
  ],
)

-- `flush` empties the buffer. Either it returns `true`, and what was packed went out behind what had gone
-- out before; or it returns `false`, and only a part of it went out: the rest is lost.
pub flush_lem : (s : Socket) → Flushes s (flush s).0 (flush s).1
flush_lem s = flush_cases s.send_buf s.arrivals s.answers s.sent
