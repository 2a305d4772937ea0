-- ===== src/Session/Framing.antt =====
-- The loop around `extract_packet` in `Server::handle_request` (server/src/server/Server.cpp).
use cpp_epoll_chat.Base.{ℕ, zero, suc, ◌≤◌, ◌<◌, ◌≡◌, refl, sym, ap, ◌∙◌, subst, arith}
use cpp_epoll_chat.Base.{List, [], ◌∷◌, ◌++◌, length, Bool, true, false}
use cpp_epoll_chat.Base.{none, some, Option-cases, ◌⊎◌, inl, inr}
use cpp_epoll_chat.Base.{length-drop}
use cpp_epoll_chat.Protocol.{Packet, request_of}
use cpp_epoll_chat.Session.{Session, extract_packet}
use cpp_epoll_chat.Session.Packets.{
  end_of, next_packet, next_packet-inv, next_packet-append, extracted, extract_packet-next_packet,
}

-- The packets that lie whole at the front of the bytes, and the rest, which holds no whole packet.
pub data Cuts : List ℕ → List Packet → List ℕ → Type 0 where
  stop : (buf : List ℕ) → next_packet buf ≡ none → Cuts buf [] buf
  more :
      (buf : List ℕ) (p : Packet) (rest : List ℕ) {ps : List Packet} {end : List ℕ}
      → next_packet buf ≡ some (p, rest)
      → Cuts rest ps end
      → Cuts buf (p ∷ ps) end

Cuts-inv :
    {buf : List ℕ} {ps : List Packet} {end : List ℕ}
    → Cuts buf ps end
    → ((next_packet buf ≡ none) × (ps ≡ []) × (end ≡ buf))
      ⊎ ((p : Packet) × (rest : List ℕ) × (qs : List Packet) × (next_packet buf ≡ some (p, rest))
          × (ps ≡ p ∷ qs)
          × Cuts rest qs end)
Cuts-inv (stop buf e) = inl (e, refl, refl)
Cuts-inv (more buf p rest {ps = qs} e c) = inr (p, rest, qs, e, refl, c)

-- The bytes determine the packets and the rest.
pub Cuts-deterministic :
    {buf : List ℕ} {ps qs : List Packet} {end end' : List ℕ}
    → Cuts buf ps end
    → Cuts buf qs end'
    → (ps ≡ qs) × (end ≡ end')
Cuts-deterministic (stop buf e) c = elim (Cuts-inv c) [
  | inl (_, eq, ee) ↦ (sym eq, sym ee)
  | inr (p, rest, qs, e', _, _) ↦ cc
]
Cuts-deterministic {end' = end2} (more buf p rest e c) d = elim (Cuts-inv d) [
  | inl (e', _, _) ↦ cc
  | inr (p', rest', qs', e', eq, d') ↦
      let same : some (p, rest) ≡ some (p', rest') = sym e ∙ e' in
      let pp : p ≡ p' = cc in
      let rr : rest' ≡ rest = cc in
      let (tails, ends) = Cuts-deterministic c (subst (λ l. Cuts l qs' end2) rr d') in
      (rw (eq, pp, tails), ends)
]

-- Bytes that arrive later go behind the rest.
pub Cuts-append :
    {buf : List ℕ} {ps qs : List Packet} {rest end : List ℕ} (later : List ℕ)
    → Cuts buf ps rest
    → Cuts (rest ++ later) qs end
    → Cuts (buf ++ later) (ps ++ qs) end
Cuts-append later (stop buf e) d = d
Cuts-append later (more buf p rest e c) d =
    more (buf ++ later) p (rest ++ later) (next_packet-append buf later p rest e)
      (Cuts-append later c d)

abbrev pub empty_packet : Packet
empty_packet = record { header = record { type = 0 }; request = request_of []; body = [] }

-- The loop `while (session->extract_packet(packet)) { …; packet = {}; }` of `handle_request`: the
-- packets in the order in which they are dispatched. Fuel: each packet has 17 bytes at least, so the
-- length of the buffer is enough.
unfoldable pub extract_all : ℕ → Session → List Packet × Session
extract_all zero s = ([], s)
extract_all (suc fuel) s =
    let r = extract_packet s empty_packet in
    elim r.0 [
      | false ↦ ([], r.2)
      | true ↦ let rest = extract_all fuel r.2 in (r.1 ∷ rest.0, rest.1)
    ]

next_packet_shorter :
    (buf : List ℕ) (p : Packet) (rest : List ℕ)
    → next_packet buf ≡ some (p, rest)
    → length rest < length buf
next_packet_shorter buf p rest e =
    let (fits, _, er) = next_packet-inv buf e in
    omega (arith, fits, ap length er, length-drop (end_of buf) buf)

extracted-some :
    (r : Bool × Packet × Session) (p : Packet) (rest : List ℕ)
    → extracted r ≡ some (p, rest)
    → (r.0 ≡ true) × (r.1 ≡ p) × (r.2.recv_buffer ≡ rest)
extracted-some r p rest e = ground arith

extracted-none : (r : Bool × Packet × Session) → extracted r ≡ none → r.0 ≡ false
extracted-none r e = ground arith

next_packet_small : (buf : List ℕ) → length buf < 17 → next_packet buf ≡ none
unfolding next_packet
next_packet_small buf h = ground arith

-- With fuel for the bytes that wait, the loop cuts them into their packets, and stops at the rest.
pub extract_all-Cuts :
    (fuel : ℕ) (s : Session)
    → length s.recv_buffer ≤ fuel
    → Cuts s.recv_buffer (extract_all fuel s).0 (extract_all fuel s).1.recv_buffer
unfolding extract_all
extract_all-Cuts zero s h = stop s.recv_buffer (next_packet_small s.recv_buffer (omega arith))
extract_all-Cuts (suc fuel) s h =
    let r = extract_packet s empty_packet in
    let (front, same) = extract_packet-next_packet s empty_packet refl in
    elim (Option-cases (next_packet s.recv_buffer)) [
      | inl e ↦ rw (extracted-none r (front ∙ e), extract_all, same e) (stop s.recv_buffer e)
      | inr ((p, rest), e) ↦
          let (found, packet, left) = extracted-some r p rest (front ∙ e) in
          let shorter = next_packet_shorter s.recv_buffer p rest e in
          let ih = extract_all-Cuts fuel r.2 (omega (arith, ap length left)) in
          rw (found, extract_all)
            (more s.recv_buffer r.1 r.2.recv_buffer (e ∙ (rw (packet, left))) ih)
    ]

-- However the bytes of a connection are split between two readings, the same packets come out, in the
-- same order: cutting what is there first, and then the rest with the bytes that came later, gives the
-- packets and the rest of cutting all bytes at once. Each loop has fuel for the bytes that wait.
pub extract_all_split :
    (fuel fuel' fuel'' : ℕ) (s : Session) (later : List ℕ)
    → length s.recv_buffer ≤ fuel
    → length (s.recv_buffer ++ later) ≤ fuel''
    → length ((extract_all fuel s).1.recv_buffer ++ later) ≤ fuel'
    → let first = extract_all fuel s in
      let second =
        extract_all fuel' (record (first.1) { recv_buffer = first.1.recv_buffer ++ later }) in
      let whole = extract_all fuel'' (record s { recv_buffer = s.recv_buffer ++ later }) in
      (whole.0 ≡ first.0 ++ second.0) × (whole.1.recv_buffer ≡ second.1.recv_buffer)
extract_all_split fuel fuel' fuel'' s later h h'' h' =
    let first = extract_all fuel s in
    Cuts-deterministic
      (extract_all-Cuts fuel'' (record s { recv_buffer = s.recv_buffer ++ later }) h'')
      (Cuts-append later (extract_all-Cuts fuel s h) (
        extract_all-Cuts fuel' (record (first.1) { recv_buffer = first.1.recv_buffer ++ later })
          h'))
