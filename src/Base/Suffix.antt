-- ===== src/Base/Suffix.antt =====
-- The end of a sorted map from a key on, and how the searches of the map read it.
use Prim.Native.Nat.{ℕ, suc, ◌≤◌}
use mathlib.Core.Path.{◌≡◌, refl}
use mathlib.Core.List.{List, [], ◌∷◌}
use mathlib.Core.Option.{Option, none, some}
use native.Mathlib.Omega.{arith}
use fix.Base.Tests.{ltb, if◌then◌else◌}
use fix.Base.SortedMap.{find, last_key, next_key, From, find_below}

module _ {V : Type 0} where
  abbrev pub from_on : ℕ → List (ℕ × V) → List (ℕ × V)
  from_on k [] = []
  from_on k ((j, v) ∷ m) = if ltb j k then from_on k m else (j, v) ∷ m

  abbrev pub up_to : ℕ → List (ℕ × V) → List (ℕ × V)
  up_to finish [] = []
  up_to finish ((j, v) ∷ m) = if ltb finish j then [] else (j, v) ∷ up_to finish m

  abbrev pub head_key : List (ℕ × V) → Option ℕ
  head_key [] = none
  head_key ((j, v) ∷ m) = some j

module _ {V : Type 0} where
  pub from_on-below : (k lo : ℕ) (m : List (ℕ × V)) → From lo m → k ≤ lo → from_on k m ≡ m
  from_on-below k lo [] s h = refl
  from_on-below k lo ((j, v) ∷ m) s h = ground arith

  pub from_on-From : (k lo : ℕ) (m : List (ℕ × V)) → From lo m → From k (from_on k m)
  from_on-From k lo [] s = tt
  from_on-From k lo ((j, v) ∷ m) s = ground (arith, from_on-From k (suc j) m s.1)

  -- A key that is not there can be stepped over.
  pub from_on-miss :
      (k lo : ℕ) (m : List (ℕ × V)) → From lo m → find k m ≡ none → from_on k m ≡ from_on (suc k) m
  unfolding find
  from_on-miss k lo [] s e = refl
  from_on-miss k lo ((j, v) ∷ m) s e = ground (arith, from_on-miss k (suc j) m s.1)

  pub from_on-hit :
      (k lo : ℕ) (v : V) (m : List (ℕ × V))
      → From lo m
      → find k m ≡ some v
      → from_on k m ≡ (k, v) ∷ from_on (suc k) m
  unfolding find
  from_on-hit k lo v [] s e = cc
  from_on-hit k lo v ((j, w) ∷ m) s e = ground (
    arith,
    from_on-hit k (suc j) v m s.1,
    from_on-below (suc k) (suc j) m s.1,
    find_below k (suc j) m s.1,
  )

  pub next_key-head :
      (k lo : ℕ) (m : List (ℕ × V)) → From lo m → next_key k m ≡ head_key (from_on (suc k) m)
  unfolding next_key
  next_key-head k lo [] s = refl
  next_key-head k lo ((j, v) ∷ m) s = ground (arith, next_key-head k (suc j) m s.1)

  -- From the key of its first entry on, the end is the same.
  pub from_on-head :
      (k lo j : ℕ) (v : V) (m post : List (ℕ × V))
      → From lo m
      → from_on k m ≡ (j, v) ∷ post
      → (from_on j m ≡ (j, v) ∷ post) × (find j m ≡ some v) × (k ≤ j)
  unfolding find
  from_on-head k lo j v [] post s e = cc
  from_on-head k lo j v ((i, w) ∷ m) post s e =
      ground (arith, from_on-head k (suc i) j v m post s.1, from_on-below j (suc i) m s.1)

  pub le-last_key :
      (k lo j : ℕ) (v : V) (m post : List (ℕ × V))
      → From lo m
      → from_on k m ≡ (j, v) ∷ post
      → j ≤ last_key m
  unfolding last_key
  le-last_key k lo j v [] post s e = cc
  le-last_key k lo j v ((i, w) ∷ []) post s e = ground arith
  le-last_key k lo j v ((i, w) ∷ (x, y) ∷ m) post s e = ground (
    arith,
    le-last_key k (suc i) j v ((x, y) ∷ m) post s.1,
    le-last_key x (suc i) x y ((x, y) ∷ m) m s.1,
  )
