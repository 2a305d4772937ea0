-- ===== src/Codec/Reading.antt =====
-- What each read of the `Reader` (protocol/Codec.h) does at a position in the middle of its buffer.
use cpp_epoll_chat.Base.{ℕ, ◌+◌, ◌%◌, ◌^◌, ◌≤◌, ◌<◌, ◌≡◌, refl, sym, ap, ◌∙◌, subst, arith}
use cpp_epoll_chat.Base.{List, [], ◌∷◌, ◌++◌, append_assoc, Option, some, false, length}
use cpp_epoll_chat.Base.{take, drop, All, length-append, length-take, take-append-drop, Bool-cases}
use cpp_epoll_chat.Base.{
  Option-cases, take-length_append, drop-length_append, inl, inr, ltb→lt, ltb→le,
}
use cpp_epoll_chat.Base.Bytes.{IsByte, le_bytes, of_le, length-le_bytes, of_le-le_bytes}
use cpp_epoll_chat.Base.Bytes.{le_bytes-of_le, of_le-lt}
use cpp_epoll_chat.Codec.{
  Reader, Read, ◌>>=◌, pure, reader, past_end, take_bytes, take_int, take_str, put_str,
}

-- The reader has taken `front`, and `rest` lies ahead; the buffer is no larger than memory allows.
pub record At (front rest : List ℕ) (r : Reader) : Type 0 where
  pub buffer : r.buf ≡ front ++ rest
  pub offset : r.off ≡ length front
  pub small : length r.buf < 2 ^ 63

pub reader-At : (body : List ℕ) → length body < 2 ^ 63 → At [] body (reader body)
unfolding reader
reader-At body h = record { buffer = refl; offset = refl; small = h }

-- Reading what lies ahead moves the reader over it.
pub take_bytes_ahead :
    (front bs rest : List ℕ) (r : Reader)
    → At front (bs ++ rest) r
    → (r' : Reader) × (take_bytes (length bs) r ≡ some (bs, r')) × At (front ++ bs) rest r'
unfolding take_bytes
take_bytes_ahead front bs rest r a = (
  r',
  taken,
  record { buffer = a.buffer ∙ sym (append_assoc front bs rest); offset = sum; small = a.small },
)
  where
    size : length r.buf ≡ length front + (length bs + length rest)
    size = rw a.buffer (omega (arith, length-append front (bs ++ rest), length-append bs rest))

    r' : Reader
    r' = record r { off = (r.off + length bs) % 2 ^ 64 }

    sum : (r.off + length bs) % 2 ^ 64 ≡ length (front ++ bs)
    sum = omega (arith, length-append front bs, a.offset, a.small, size)

    ahead : drop r.off r.buf ≡ bs ++ rest
    ahead = rw (a.offset, a.buffer) (drop-length_append front (bs ++ rest))

    taken : take_bytes (length bs) r ≡ some (bs, r')
    taken = elim (Bool-cases (past_end r (length bs))) [
      | inl far ↦ absurd (omega (arith, ltb→lt _ _ far, a.small, size, a.offset))
      | inr near ↦ rw near (rw (ahead, take-length_append bs rest) refl)
    ]

-- A read that succeeds took exactly `n` bytes from what lay ahead.
pub take_bytes_taken :
    (n : ℕ) (front rest bs : List ℕ) (r r' : Reader)
    → At front rest r
    → n < 2 ^ 32
    → take_bytes n r ≡ some (bs, r')
    → (rest' : List ℕ) × (rest ≡ bs ++ rest') × (length bs ≡ n) × At (front ++ bs) rest' r'
unfolding take_bytes
take_bytes_taken n front rest bs r r' a small e = elim (Bool-cases (past_end r n)) [
  | inl far ↦ cc (rw far at e)
  | inr near ↦ found near (rw near at e)
]
  where
    size : length r.buf ≡ length front + length rest
    size = rw a.buffer (length-append front rest)

    ahead : drop r.off r.buf ≡ rest
    ahead = rw (a.offset, a.buffer) (drop-length_append front rest)

    found :
        past_end r n ≡ false
        → ◌≡◌ {A = Option (List ℕ × Reader)}
            (some (take n (drop r.off r.buf), record r { off = (r.off + n) % 2 ^ 64 }))
            (some (bs, r'))
        → (rest' : List ℕ) × (rest ≡ bs ++ rest') × (length bs ≡ n) × At (front ++ bs) rest' r'
    found near h = (
      drop n rest,
      sym (take-append-drop n rest) ∙ ap (λ l. l ++ drop n rest) cut,
      ap length (sym cut) ∙ length-take n rest fits,
      record {
        buffer =
            moved.0
            ∙ a.buffer
            ∙ ap (◌++◌ front) (sym (take-append-drop n rest) ∙ ap (λ l. l ++ drop n rest) cut)
            ∙ sym (append_assoc front bs (drop n rest));
        offset =
            moved.1
            ∙ omega (
              arith,
              a.offset,
              a.small,
              size,
              fits,
              length-append front bs,
              ap length cut,
              length-take n rest fits,
            );
        small = subst (λ (l : List ℕ). length l < 2 ^ 63) (sym moved.0) a.small;
      },
    )
      where
        fits : n ≤ length rest
        fits = omega (arith, ltb→le _ _ near, a.small, size, a.offset)

        cut : take n rest ≡ bs
        cut = subst (λ (l : List ℕ). take n l ≡ bs) ahead (cc)

        moved : (r'.buf ≡ r.buf) × (r'.off ≡ (r.off + n) % 2 ^ 64)
        moved = (cc, cc)

-- Running and inverting a chain of reads.
pub >>=-some :
    {A B : Type 0} (m : Read A) (f : A → Read B) (r : Reader) {a : A} {r' : Reader}
    → m r ≡ some (a, r')
    → (m >>= f) r ≡ f a r'
>>=-some m f r e = rw (e, ◌>>=◌)

pub >>=-eq-some :
    {A B : Type 0} (m : Read A) (f : A → Read B) (r : Reader) {p : B × Reader}
    → (m >>= f) r ≡ some p
    → (a : A) × (r' : Reader) × (m r ≡ some (a, r')) × (f a r' ≡ some p)
>>=-eq-some m f r h = elim (Option-cases (m r)) [
  | inl e ↦ cc (rw (e, ◌>>=◌) at h)
  | inr ((a, r'), e) ↦ (a, r', e, rw (e, ◌>>=◌) at h)
]

pub pure-eq-some :
    {A : Type 0} (a b : A) (r s : Reader) → pure a r ≡ some (b, s) → (a ≡ b) × (r ≡ s)
pure-eq-some a b r s h = (cc, cc)

-- An integer of `n` bytes that was put comes back.
pub take_int_ahead :
    (n v : ℕ) (front rest : List ℕ) (r : Reader)
    → v < 256 ^ n
    → At front (le_bytes n v ++ rest) r
    → (r' : Reader) × (take_int n r ≡ some (v, r')) × At (front ++ le_bytes n v) rest r'
unfolding take_int
take_int_ahead n v front rest r fits a =
    let (r', e, a') = take_bytes_ahead front (le_bytes n v) rest r a in
    (
      r',
      >>=-some (take_bytes n) _ r (rw (length-le_bytes n v) at e) ∙ rw (of_le-le_bytes n v fits),
      a',
    )

pub All-append_right : (xs ys : List ℕ) → All IsByte (xs ++ ys) → All IsByte xs × All IsByte ys
All-append_right [] ys h = (tt, h)
All-append_right (x ∷ xs) ys h = let (hx, hy) = All-append_right xs ys h.1 in ((h.0, hx), hy)

-- An integer that was read is what lay ahead, and fits its width.
pub take_int_taken :
    (n : ℕ) (front rest : List ℕ) (v : ℕ) (r r' : Reader)
    → At front rest r
    → n < 2 ^ 32
    → All IsByte rest
    → take_int n r ≡ some (v, r')
    → (rest' : List ℕ) × (rest ≡ le_bytes n v ++ rest')
      × (v < 256 ^ n)
      × All IsByte rest'
      × At (front ++ le_bytes n v) rest' r'
unfolding take_int
take_int_taken n front rest v r r' a small bytes e =
    let (bs, s, t, k) = >>=-eq-some (take_bytes n) _ r e in
    let (rest', cut, len, a') = take_bytes_taken n front rest bs r s a small t in
    let (hb, hr) = All-append_right bs rest' (subst (All IsByte) cut bytes) in
    let value : of_le bs ≡ v = cc in
    let same : le_bytes n v ≡ bs = rw (← len, ← value) (le_bytes-of_le bs hb) in
    (
      rest',
      rw same cut,
      rw (← value, ← len) (of_le-lt bs hb),
      hr,
      rw same (subst (At (front ++ bs) rest') (cc) a'),
    )

-- The bytes of a text on the wire: its length, then itself.
abbrev pub text_bytes : List ℕ → List ℕ
text_bytes s = le_bytes 4 (length s) ++ s

pub put_str_lem : (out s : List ℕ) → length s < 2 ^ 32 → put_str out s ≡ out ++ text_bytes s
unfolding put_str
put_str_lem out s h =
    let e : length s % 2 ^ 32 ≡ length s = omega arith in
    rw e (append_assoc out (le_bytes 4 (length s)) s)

-- A text that was put comes back.
pub take_str_ahead :
    (s front rest : List ℕ) (r : Reader)
    → length s < 2 ^ 32
    → At front (text_bytes s ++ rest) r
    → (r' : Reader) × (take_str r ≡ some (s, r')) × At (front ++ text_bytes s) rest r'
unfolding take_str
take_str_ahead s front rest r fits a =
    let len = le_bytes 4 (length s) in
    let a1 = subst (λ l. At front l r) (append_assoc len s rest) a in
    let (r1, e1, b1) = take_int_ahead 4 (length s) front (s ++ rest) r (omega arith) a1 in
    let (r2, e2, b2) = take_bytes_ahead (front ++ len) s rest r1 b1 in
    (
      r2,
      >>=-some (take_int 4) take_bytes r e1 ∙ e2,
      subst (λ l. At l rest r2) (append_assoc front len s) b2,
    )

-- A text that was read is what lay ahead.
pub take_str_taken :
    (front rest s : List ℕ) (r r' : Reader)
    → At front rest r
    → All IsByte rest
    → take_str r ≡ some (s, r')
    → (rest' : List ℕ) × (rest ≡ text_bytes s ++ rest')
      × (length s < 2 ^ 32)
      × All IsByte s
      × All IsByte rest'
      × At (front ++ text_bytes s) rest' r'
unfolding take_str
take_str_taken front rest s r r' a bytes e =
    let (len, r1, e1, k) = >>=-eq-some (take_int 4) take_bytes r e in
    let (mid, cut1, small, hm, b1) =
      take_int_taken 4 front rest len r r1 a (omega arith) bytes e1 in
    let (rest', cut2, size, b2) =
      take_bytes_taken len (front ++ le_bytes 4 len) mid s r1 r' b1 (omega (arith, small)) k in
    let (hs, hr) = All-append_right s rest' (subst (All IsByte) cut2 hm) in
    let whole : le_bytes 4 len ++ (s ++ rest') ≡ text_bytes s ++ rest' =
      rw size (sym (append_assoc (le_bytes 4 len) s rest')) in
    let place : (front ++ le_bytes 4 len) ++ s ≡ front ++ text_bytes s =
      rw size (append_assoc front (le_bytes 4 len) s) in
    (
      rest',
      cut1 ∙ ap (◌++◌ (le_bytes 4 len)) cut2 ∙ whole,
      omega (arith, small, size),
      hs,
      hr,
      subst (λ l. At l rest' r') place b2,
    )
