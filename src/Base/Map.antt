-- ===== src/Base/Map.antt =====
-- `std::unordered_map` with integer keys, as an association list: `emplace` keeps an entry that is
-- there, `erase` takes it out, `find` looks it up, `assign` writes through a reference to an entry.
use Prim.Native.Nat.{ℕ, ◌+◌}
use mathlib.Core.Path.{◌≡◌, refl}
use mathlib.Core.Logic.{◌≢◌}
use mathlib.Core.List.{List, [], ◌∷◌}
use mathlib.Core.Option.{Option, none, some}
use native.Mathlib.Omega.{arith}
use cpp_epoll_chat.Base.Tests.{◌==◌, if◌then◌else◌}
use cpp_epoll_chat.Base.Lists.{length, All}

module _ {ℓ} {V : Type ℓ} where
  unfoldable pub find : ℕ → List (ℕ × V) → Option V
  find k [] = none
  find k ((j, v) ∷ m) = if j == k then some v else find k m

  unfoldable pub emplace : ℕ → V → List (ℕ × V) → List (ℕ × V)
  emplace k v [] = (k, v) ∷ []
  emplace k v ((j, w) ∷ m) = if j == k then (j, w) ∷ m else (j, w) ∷ emplace k v m

  unfoldable pub erase : ℕ → List (ℕ × V) → List (ℕ × V)
  erase k [] = []
  erase k ((j, v) ∷ m) = if j == k then m else (j, v) ∷ erase k m

  unfoldable pub assign : ℕ → V → List (ℕ × V) → List (ℕ × V)
  assign k v [] = []
  assign k v ((j, w) ∷ m) = if j == k then (j, v) ∷ m else (j, w) ∷ assign k v m

  -- No key stands twice: true of every map, since only `emplace` adds an entry.
  abbrev pub Fresh : ℕ → List (ℕ × V) → Type 0
  Fresh k [] = Unit {0}
  Fresh k ((j, v) ∷ m) = (j ≢ k) × Fresh k m

  abbrev pub Distinct : List (ℕ × V) → Type 0
  Distinct [] = Unit {0}
  Distinct ((j, v) ∷ m) = Fresh j m × Distinct m

module _ {ℓ} {V : Type ℓ} where
  pub find-emplace :
      (k j : ℕ) (v : V) (m : List (ℕ × V))
      → find j (emplace k v m)
        ≡ (if k == j then elim (find k m) [ none ↦ some v | some w ↦ some w ] else find j m)
  unfolding find emplace
  find-emplace k j v [] = refl
  find-emplace k j v ((i, w) ∷ m) = ground (arith, find-emplace k j v m)

  pub find-Fresh : (k : ℕ) (m : List (ℕ × V)) → Fresh k m → find k m ≡ none
  unfolding find
  find-Fresh k [] h = refl
  find-Fresh k ((i, w) ∷ m) h = ground (arith, find-Fresh k m h.1)

  pub Fresh-find : (k : ℕ) (m : List (ℕ × V)) → find k m ≡ none → Fresh k m
  unfolding find
  Fresh-find k [] h = tt
  Fresh-find k ((i, w) ∷ m) h = ground (arith, Fresh-find k m)

  pub find-erase :
      (k j : ℕ) (m : List (ℕ × V))
      → Distinct m
      → find j (erase k m) ≡ (if k == j then none else find j m)
  unfolding find erase
  find-erase k j [] h = ground arith
  find-erase k j ((i, w) ∷ m) h = ground (arith, find-erase k j m h.1, find-Fresh i m h.0)

  pub find-assign :
      (k j : ℕ) (v : V) (m : List (ℕ × V))
      → find j (assign k v m)
        ≡ (if k == j then elim (find k m) [ none ↦ none | some w ↦ some v ] else find j m)
  unfolding find assign
  find-assign k j v [] = ground arith
  find-assign k j v ((i, w) ∷ m) = ground (arith, find-assign k j v m)

  Fresh-emplace : (k j : ℕ) (v : V) (m : List (ℕ × V)) → k ≢ j → Fresh j m → Fresh j (emplace k v m)
  unfolding emplace
  Fresh-emplace k j v [] n h = (n, tt)
  Fresh-emplace k j v ((i, w) ∷ m) n h = ground (arith, Fresh-emplace k j v m n h.1)

  pub Distinct-emplace : (k : ℕ) (v : V) (m : List (ℕ × V)) → Distinct m → Distinct (emplace k v m)
  unfolding emplace
  Distinct-emplace k v [] h = (tt, tt)
  Distinct-emplace k v ((i, w) ∷ m) h =
      ground (arith, Distinct-emplace k v m h.1, Fresh-emplace k i v m)

  Fresh-erase : (k j : ℕ) (m : List (ℕ × V)) → Fresh j m → Fresh j (erase k m)
  unfolding erase
  Fresh-erase k j [] h = tt
  Fresh-erase k j ((i, w) ∷ m) h = ground (arith, Fresh-erase k j m h.1)

  pub Distinct-erase : (k : ℕ) (m : List (ℕ × V)) → Distinct m → Distinct (erase k m)
  unfolding erase
  Distinct-erase k [] h = tt
  Distinct-erase k ((i, w) ∷ m) h = ground (arith, Distinct-erase k m h.1, Fresh-erase k i m h.0)

  Fresh-assign : (k j : ℕ) (v : V) (m : List (ℕ × V)) → Fresh j m → Fresh j (assign k v m)
  unfolding assign
  Fresh-assign k j v [] h = tt
  Fresh-assign k j v ((i, w) ∷ m) h = ground (arith, Fresh-assign k j v m h.1)

  pub Distinct-assign : (k : ℕ) (v : V) (m : List (ℕ × V)) → Distinct m → Distinct (assign k v m)
  unfolding assign
  Distinct-assign k v [] h = tt
  Distinct-assign k v ((i, w) ∷ m) h =
      ground (arith, Distinct-assign k v m h.1, Fresh-assign k i v m h.0)

  pub length-emplace :
      (k : ℕ) (v : V) (m : List (ℕ × V))
      → length (emplace k v m) ≡ (elim (find k m) [ none ↦ length m + 1 | some w ↦ length m ])
  unfolding emplace find
  length-emplace k v [] = omega arith
  length-emplace k v ((i, w) ∷ m) = ground (arith, length-emplace k v m)

  pub length-erase :
      (k : ℕ) (m : List (ℕ × V))
      → length m ≡ (elim (find k m) [ none ↦ length (erase k m) | some w ↦ length (erase k m) + 1 ])
  unfolding erase find
  length-erase k [] = refl
  length-erase k ((i, w) ∷ m) = ground (arith, length-erase k m)

  -- A property of every value of a map.
  abbrev pub AllValues {κ} : (V → Type κ) → List (ℕ × V) → Type κ
  AllValues P m = All (λ (e : ℕ × V). P e.1) m

module _ {ℓ κ} {V : Type ℓ} (P : V → Type κ) where
  pub AllValues-emplace :
      (k : ℕ) (v : V) (m : List (ℕ × V)) → P v → AllValues P m → AllValues P (emplace k v m)
  unfolding emplace
  AllValues-emplace k v [] p h = (p, tt)
  AllValues-emplace k v ((i, w) ∷ m) p h = ground (arith, AllValues-emplace k v m p h.1)

  pub AllValues-erase : (k : ℕ) (m : List (ℕ × V)) → AllValues P m → AllValues P (erase k m)
  unfolding erase
  AllValues-erase k [] h = tt
  AllValues-erase k ((i, w) ∷ m) h = ground (arith, AllValues-erase k m h.1)

  pub AllValues-assign :
      (k : ℕ) (v : V) (m : List (ℕ × V)) → P v → AllValues P m → AllValues P (assign k v m)
  unfolding assign
  AllValues-assign k v [] p h = tt
  AllValues-assign k v ((i, w) ∷ m) p h = ground (arith, AllValues-assign k v m p h.1)

  pub AllValues-find : (k : ℕ) {v : V} (m : List (ℕ × V)) → find k m ≡ some v → AllValues P m → P v
  unfolding find
  AllValues-find k [] e h = cc
  AllValues-find k {v = v} ((i, w) ∷ m) e h = ground (arith, AllValues-find k {v = v} m)
