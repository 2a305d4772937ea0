-- ===== src/Session/Threads/Holding.antt =====
-- Which threads hold `sending_` in `Session::flush` (server/src/network/Session.cpp), and what they have
-- found in the queue.
use cpp_epoll_chat.Base.{
  ℕ, ◌≡◌, ◌≢◌, ◌⊎◌, refl, sym, ap, ◌∙◌, List, [], ◌∷◌, ◌++◌, Bool, true, false, ◌==◌, append-nil,
  append_assoc, arith, Bool-cases, inl, inr, ==_refl,
}
use cpp_epoll_chat.Session.Threads.{
  Point, outside, wants, checks, sends, pops, clears, retests, retakes, stands,
}

-- Whether a thread that stands there has set `sending_`, and whether it is in a function at all.
abbrev pub holds : Point → Bool
holds checks = true
holds sends = true
holds pops = true
holds clears = true
holds _ = false

abbrev pub active : Point → Bool
active outside = false
active _ = true

-- What the queue is like where a thread stands.
abbrev pub fits : Point → List (List ℕ) → Bool
fits sends [] = false
fits pops [] = false
fits pops ((b ∷ bs) ∷ rest) = false
fits _ _ = true

abbrev pub flat : List (List ℕ) → List ℕ
flat [] = []
flat (b ∷ queue) = b ++ flat queue

pub flat-append : (queue : List (List ℕ)) (b : List ℕ) → flat (queue ++ (b ∷ [])) ≡ flat queue ++ b
flat-append [] b = append-nil b
flat-append (x ∷ queue) b = ap (◌++◌ x) (flat-append queue b) ∙ sym (append_assoc x (flat queue) b)

pub holds-active : (p : Point) → holds p ≡ true → active p ≡ true
holds-active outside h = cc
holds-active wants h = refl
holds-active checks h = refl
holds-active sends h = refl
holds-active pops h = refl
holds-active clears h = refl
holds-active retests h = refl
holds-active retakes h = refl

pub fits-unheld : (p : Point) (queue : List (List ℕ)) → holds p ≡ false → fits p queue ≡ true
fits-unheld outside queue h = refl
fits-unheld wants queue h = refl
fits-unheld checks queue h = refl
fits-unheld sends queue h = cc
fits-unheld pops queue h = cc
fits-unheld clears queue h = refl
fits-unheld retests queue h = refl
fits-unheld retakes queue h = refl

pub fits-packed :
    (p : Point) (queue : List (List ℕ)) (b : List ℕ)
    → fits p queue ≡ true
    → fits p (queue ++ (b ∷ [])) ≡ true
fits-packed outside queue b h = refl
fits-packed wants queue b h = refl
fits-packed checks queue b h = refl
fits-packed sends [] b h = cc
fits-packed sends (x ∷ queue) b h = refl
fits-packed pops [] b h = cc
fits-packed pops ([] ∷ queue) b h = refl
fits-packed pops ((x ∷ xs) ∷ queue) b h = cc
fits-packed clears queue b h = refl
fits-packed retests queue b h = refl
fits-packed retakes queue b h = refl

pub fits-pops : (b : List ℕ) (rest : List (List ℕ)) → fits pops (b ∷ rest) ≡ true → b ≡ []
fits-pops [] rest h = refl
fits-pops (x ∷ b) rest h = cc

-- The thread that moved, and any other.
pub stands_cases :
    (t : ℕ) (p : Point) (at : ℕ → Point) (u : ℕ)
    → ((u ≡ t) × (stands t p at u ≡ p)) ⊎ ((u ≢ t) × (stands t p at u ≡ at u))
stands_cases t p at u = elim (Bool-cases (t == u)) [
  | inl e ↦ inl (ground (arith, e), rw (e) refl)
  | inr e ↦ inr (λ h. ground (arith, e, h), rw (e) refl)
]

-- `sending_` is set exactly while one thread holds it.
pub record Locked (sending : Bool) (at : ℕ → Point) : Type 0 where
  pub held : (t : ℕ) → holds (at t) ≡ true → sending ≡ true
  pub one : (t u : ℕ) → holds (at t) ≡ true → holds (at u) ≡ true → t ≡ u
  pub holder : sending ≡ true → (t : ℕ) × (holds (at t) ≡ true)

pub Locked-stays :
    (t : ℕ) (p : Point) (sending : Bool) (at : ℕ → Point)
    → holds p ≡ holds (at t)
    → Locked sending at
    → Locked sending (stands t p at)
Locked-stays t p sending at e l =
    let was : (u : ℕ) → holds (stands t p at u) ≡ holds (at u) = λ u. elim (stands_cases t p at u) [
      | inl (q, r) ↦ ap holds r ∙ e ∙ ap (λ v. holds (at v)) (sym q)
      | inr (q, r) ↦ ap holds r
    ] in
    record {
      held = λ u h. l.held u (sym (was u) ∙ h);
      one = λ u v h k. l.one u v (sym (was u) ∙ h) (sym (was v) ∙ k);
      holder = λ h. let (u, k) = l.holder h in (u, was u ∙ k);
    }

pub Locked-takes :
    (t : ℕ) (p : Point) (sending : Bool) (at : ℕ → Point)
    → holds p ≡ true
    → sending ≡ false
    → Locked sending at
    → Locked true (stands t p at)
Locked-takes t p sending at e f l =
    let only : (u : ℕ) → holds (stands t p at u) ≡ true → u ≡ t = λ u h.
      elim (stands_cases t p at u) [
        | inl (q, r) ↦ q
        | inr (q, r) ↦ let k = l.held u (sym (ap holds r) ∙ h) in cc
      ] in
    record {
      held = λ u h. refl;
      one = λ u v h k. only u h ∙ sym (only v k);
      holder = λ h. (t, rw (==_refl t) e);
    }

pub Locked-leaves :
    (t : ℕ) (p : Point) (sending : Bool) (at : ℕ → Point)
    → holds (at t) ≡ true
    → holds p ≡ false
    → Locked sending at
    → Locked false (stands t p at)
Locked-leaves t p sending at e f l =
    let none : (u : ℕ) → holds (stands t p at u) ≡ false = λ u. elim (stands_cases t p at u) [
      | inl (q, r) ↦ ap holds r ∙ f
      | inr (q, r) ↦ elim (Bool-cases (holds (at u))) [
        | inl h ↦ elim (q (l.one u t h e)) [ ]
        | inr h ↦ ap holds r ∙ h
      ]
    ] in
    record {
      held = λ u h. let k = none u in cc;
      one = λ u v h k. let n = none u in cc;
      holder = λ h. cc;
    }

-- A queue that each thread is ready for.
abbrev pub Ready : List (List ℕ) → (ℕ → Point) → Type 0
Ready queue at = (t : ℕ) → fits (at t) queue ≡ true

pub Ready-stands :
    (t : ℕ) (p : Point) (queue : List (List ℕ)) (at : ℕ → Point)
    → fits p queue ≡ true
    → Ready queue at
    → Ready queue (stands t p at)
Ready-stands t p queue at e h u = elim (stands_cases t p at u) [
  | inl (q, r) ↦ ap (λ v. fits v queue) r ∙ e
  | inr (q, r) ↦ ap (λ v. fits v queue) r ∙ h u
]

-- The holder alone may change what is at the front.
pub Ready-holder :
    (t : ℕ) (p : Point) (queue : List (List ℕ)) (sending : Bool) (at : ℕ → Point)
    → holds (at t) ≡ true
    → fits p queue ≡ true
    → Locked sending at
    → Ready queue (stands t p at)
Ready-holder t p queue sending at e f l u = elim (stands_cases t p at u) [
  | inl (q, r) ↦ ap (λ v. fits v queue) r ∙ f
  | inr (q, r) ↦ elim (Bool-cases (holds (at u))) [
    | inl h ↦ elim (q (l.one u t h e)) [ ]
    | inr h ↦ ap (λ v. fits v queue) r ∙ fits-unheld (at u) queue h
  ]
]

abbrev pub Active : (ℕ → Point) → Type 0
Active at = (t : ℕ) × (active (at t) ≡ true)

pub Active-stands : (t : ℕ) (p : Point) (at : ℕ → Point) → active p ≡ true → Active (stands t p at)
Active-stands t p at e = (t, rw (==_refl t) e)

-- The thread that leaves is not the one that holds.
pub Active-leaves :
    (t : ℕ) (sending : Bool) (at : ℕ → Point)
    → holds (at t) ≡ false
    → sending ≡ true
    → Locked sending at
    → Active (stands t outside at)
Active-leaves t sending at e f l =
    let (u, h) = l.holder f in
    (
      u,
      elim (stands_cases t outside at u) [
        | inl (q, r) ↦ let k = ap (λ v. holds (at v)) q in cc
        | inr (q, r) ↦ ap active r ∙ holds-active (at u) h
      ],
    )
