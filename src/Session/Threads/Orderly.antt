-- ===== src/Session/Threads/Orderly.antt =====
-- What holds between the steps of `pack` and `flush` (server/src/network/Session.cpp).
use cpp_epoll_chat.Base.{
  ℕ, ◌≡◌, ◌≢◌, ◌⊎◌, refl, sym, ap, ◌∙◌, List, [], ◌∷◌, ◌++◌, take, drop, Bool, true, false,
  append_assoc, inl, inr,
}
use cpp_epoll_chat.Base.Lists.{take-append-drop}
use cpp_epoll_chat.Session.Threads.{
  Point, outside, wants, checks, sends, pops, clears, retests, retakes, Shared, moves, Step, Steps,
  here, after, fresh,
}
use cpp_epoll_chat.Session.Threads.{
  adds_buffer, begins, takes, finds_busy, finds_empty, finds_front, writes, blocks_or_fails,
  has_sent, pops_front, clears_sending, has_finished, finds_more, goes_on, leaves_it,
}
use cpp_epoll_chat.Session.Threads.Holding.{
  holds, active, fits, flat, flat-append, holds-active, fits-unheld, fits-packed, fits-pops, Locked,
  Locked-stays, Locked-takes, Locked-leaves, Ready, Ready-stands, Ready-holder, Active,
  Active-stands, Active-leaves,
}

-- Bytes that wait have a thread at work, or the last one at work was stalled by the kernel.
pub record Orderly (s : Shared) : Type 0 where
  pub locked : Locked s.sending s.at
  pub ready : Ready s.queue s.at
  pub bytes : s.written ++ flat s.queue ≡ s.packed
  pub awaited : s.queue ≢ [] → (s.stalled ≡ true) ⊎ Active s.at

pub fresh-Orderly : Orderly fresh
fresh-Orderly = record {
  locked = record { held = λ t h. cc; one = λ t u h k. cc; holder = λ h. cc };
  ready = λ t. refl;
  bytes = refl;
  awaited = λ h. elim (h refl) [ ];
}

-- A step that moves its thread alone.
moves-Orderly :
    (t : ℕ) (p : Point) (s : Shared)
    → holds p ≡ holds (s.at t)
    → fits p s.queue ≡ true
    → active p ≡ true
    → Orderly s
    → Orderly (moves t p s)
moves-Orderly t p s e f g o = record {
  locked = Locked-stays t p s.sending s.at e o.locked;
  ready = Ready-stands t p s.queue s.at f o.ready;
  bytes = o.bytes;
  awaited = λ h. inr (Active-stands t p s.at g);
}

takes-Orderly :
    (t : ℕ) (s : Shared)
    → s.sending ≡ false
    → Orderly s
    → Orderly (moves t checks (record s { sending = true; stalled = false }))
takes-Orderly t s e o = record {
  locked = Locked-takes t checks s.sending s.at refl e o.locked;
  ready = Ready-stands t checks s.queue s.at refl o.ready;
  bytes = o.bytes;
  awaited = λ h. inr (Active-stands t checks s.at refl);
}

-- A thread that does not hold `sending_` leaves.
leaves-Orderly :
    (t : ℕ) (s : Shared)
    → holds (s.at t) ≡ false
    → (s.queue ≡ []) ⊎ (s.sending ≡ true)
    → Orderly s
    → Orderly (moves t outside s)
leaves-Orderly t s e f o = record {
  locked = Locked-stays t outside s.sending s.at (sym e) o.locked;
  ready = Ready-stands t outside s.queue s.at refl o.ready;
  bytes = o.bytes;
  awaited = λ h. elim f [
    | inl q ↦ elim (h q) [ ]
    | inr q ↦ inr (Active-leaves t s.sending s.at e q o.locked)
  ];
}

-- The thread that holds `sending_` clears it.
clears-Orderly :
    (t : ℕ) (p : Point) (stalled : Bool) (s : Shared)
    → holds (s.at t) ≡ true
    → holds p ≡ false
    → (s.queue ≢ [] → (stalled ≡ true) ⊎ (active p ≡ true))
    → Orderly s
    → Orderly (moves t p (record s { sending = false; stalled = stalled }))
clears-Orderly t p stalled s e f g o = record {
  locked = Locked-leaves t p s.sending s.at e f o.locked;
  ready = Ready-stands t p s.queue s.at (fits-unheld p s.queue f) o.ready;
  bytes = o.bytes;
  awaited = λ h. elim (g h) [ inl q ↦ inl q | inr q ↦ inr (Active-stands t p s.at q) ];
}

-- The thread that holds `sending_` takes bytes from the queue.
holder-Orderly :
    (t : ℕ) (p : Point) (queue : List (List ℕ)) (written : List ℕ) (s : Shared)
    → holds (s.at t) ≡ true
    → holds p ≡ true
    → fits p queue ≡ true
    → written ++ flat queue ≡ s.written ++ flat s.queue
    → Orderly s
    → Orderly (moves t p (record s { queue = queue; written = written }))
holder-Orderly t p queue written s e f g h o = record {
  locked = Locked-stays t p s.sending s.at (f ∙ sym e) o.locked;
  ready = Ready-holder t p queue s.sending s.at e g o.locked;
  bytes = h ∙ o.bytes;
  awaited = λ k. inr (Active-stands t p s.at (holds-active p f));
}

pub Step-Orderly : {s t : Shared} → Step s t → Orderly s → Orderly t
Step-Orderly (adds_buffer t b s e) o = record {
  locked = Locked-stays t wants s.sending s.at (sym (ap holds e)) o.locked;
  ready = Ready-stands t wants _ s.at refl (λ u. fits-packed (s.at u) s.queue b (o.ready u));
  bytes =
      ap (◌++◌ s.written) (flat-append s.queue b)
      ∙ sym (append_assoc s.written (flat s.queue) b)
      ∙ ap (λ x. x ++ b) o.bytes;
  awaited = λ h. inr (Active-stands t wants s.at refl);
}
Step-Orderly (begins t s e) o = moves-Orderly t wants s (sym (ap holds e)) refl refl o
Step-Orderly (takes t s e f) o = takes-Orderly t s f o
Step-Orderly (finds_busy t s e f) o = leaves-Orderly t s (ap holds e) (inr f) o
Step-Orderly (finds_empty t s e f) o =
    clears-Orderly t outside s.stalled s (ap holds e) refl (λ h. elim (h f) [ ]) o
Step-Orderly (finds_front t b rest s e f) o =
    moves-Orderly t sends s (sym (ap holds e)) (ap (fits sends) f) refl o
Step-Orderly (writes t n b rest s e f g h) o =
    holder-Orderly t sends (drop n b ∷ rest) (s.written ++ take n b) s (ap holds e) refl refl
      (append_assoc s.written (take n b) (drop n b ++ flat rest)
        ∙ ap (◌++◌ s.written) (
            sym (append_assoc (take n b) (drop n b) (flat rest))
            ∙ ap (λ x. x ++ flat rest) (take-append-drop n b)
            ∙ sym (ap flat f)))
      o
Step-Orderly (blocks_or_fails t b rest s e f g) o =
    clears-Orderly t outside true s (ap holds e) refl (λ h. inl refl) o
Step-Orderly (has_sent t rest s e f) o =
    moves-Orderly t pops s (sym (ap holds e)) (ap (fits pops) f) refl o
Step-Orderly (pops_front t b rest s e f) o =
    let empty =
      fits-pops b rest
        (sym (ap (λ q. fits pops q) f) ∙ ap (λ p. fits p s.queue) (sym e) ∙ o.ready t) in
    holder-Orderly t clears rest s.written s (ap holds e) refl refl
      (ap (◌++◌ s.written) (sym (ap flat f ∙ ap (λ x. x ++ flat rest) empty))) o
Step-Orderly (clears_sending t s e) o =
    clears-Orderly t retests s.stalled s (ap holds e) refl (λ h. inr refl) o
Step-Orderly (has_finished t s e f) o = leaves-Orderly t s (ap holds e) (inl f) o
Step-Orderly (finds_more t s e f) o = moves-Orderly t retakes s (sym (ap holds e)) refl refl o
Step-Orderly (goes_on t s e f) o = takes-Orderly t s f o
Step-Orderly (leaves_it t s e f) o = leaves-Orderly t s (ap holds e) (inr f) o

Steps-Orderly : {s t : Shared} → Steps s t → Orderly s → Orderly t
Steps-Orderly (here s) o = o
Steps-Orderly (after step steps) o = Steps-Orderly steps (Step-Orderly step o)

-- However threads take turns in `pack` and `flush` from a new session on: the bytes that the kernel took,
-- followed by those that wait, are the packed buffers in the order of their packing; `sending_` is set
-- exactly while a thread holds it, and no two do; and where bytes wait and no thread is in either
-- function, the last `flush` that set `sending_` answered `Pending` or `Error`.
pub threads-Orderly : (s : Shared) → Steps fresh s → Orderly s
threads-Orderly s steps = Steps-Orderly steps fresh-Orderly
