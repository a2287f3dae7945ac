-- ===== src/Base/SortedMap.antt =====
-- `std::map<unsigned, T>`: an association list in the order of its keys.
use Prim.Native.Nat.{ℕ, suc, ◌≤◌, ◌<◌}
use mathlib.Core.Path.{◌≡◌, refl}
use mathlib.Core.List.{List, [], ◌∷◌}
use mathlib.Core.Option.{Option, none, some}
use native.Mathlib.Omega.{arith}
use fix.Base.Tests.{ltb, ◌==◌, if◌then◌else◌, is_some}

module _ {ℓ} {V : Type ℓ} where
  -- `find`, as the value found.
  unfoldable pub find : ℕ → List (ℕ × V) → Option V
  find k [] = none
  find k ((j, v) ∷ m) = if j == k then some v else find k m

  -- `insert`: a key that is there keeps its value.
  unfoldable pub insert : ℕ → V → List (ℕ × V) → List (ℕ × V)
  insert k v [] = (k, v) ∷ []
  insert k v ((j, w) ∷ m) =
      if j == k then (j, w) ∷ m else if ltb k j then (k, v) ∷ (j, w) ∷ m else (j, w) ∷ insert k v m

  -- `itr->second = v` at the key, if it is there.
  unfoldable pub assign : ℕ → V → List (ℕ × V) → List (ℕ × V)
  assign k v [] = []
  assign k v ((j, w) ∷ m) = if j == k then (j, v) ∷ m else (j, w) ∷ assign k v m

  -- The key of `rbegin()`, and 0 for an empty map.
  unfoldable pub last_key : List (ℕ × V) → ℕ
  last_key [] = 0
  last_key ((j, v) ∷ []) = j
  last_key ((j, v) ∷ e ∷ m) = last_key (e ∷ m)

  -- The key behind `k` in the order: `++itr` for an iterator at `k`.
  unfoldable pub next_key : ℕ → List (ℕ × V) → Option ℕ
  next_key k [] = none
  next_key k ((j, v) ∷ m) = if ltb k j then some j else next_key k m

  -- The keys rise, from `lo` on.
  abbrev pub From : ℕ → List (ℕ × V) → Type 0
  From lo [] = Unit
  From lo ((k, v) ∷ m) = (lo ≤ k) × From (suc k) m

  abbrev pub IsSorted : List (ℕ × V) → Type 0
  IsSorted = From 0

module _ {ℓ} {V : Type ℓ} where
  pub find_below : (k lo : ℕ) (m : List (ℕ × V)) → From lo m → k < lo → find k m ≡ none
  unfolding find
  find_below k lo [] s h = refl
  find_below k lo ((j, v) ∷ m) s h = ground (arith, find_below k (suc j) m s.1)

  pub insert-From :
      (k : ℕ) (v : V) (lo : ℕ) (m : List (ℕ × V)) → lo ≤ k → From lo m → From lo (insert k v m)
  unfolding insert
  insert-From k v lo [] h s = (h, tt)
  insert-From k v lo ((j, w) ∷ m) h s = ground (arith, insert-From k v (suc j) m)

  pub assign-From : (k : ℕ) (v : V) (lo : ℕ) (m : List (ℕ × V)) → From lo m → From lo (assign k v m)
  unfolding assign
  assign-From k v lo [] s = tt
  assign-From k v lo ((j, w) ∷ m) s = ground (arith, assign-From k v (suc j) m)

  -- What a search finds after an insertion.
  pub find-insert :
      (k j : ℕ) (v : V) (lo : ℕ) (m : List (ℕ × V))
      → From lo m
      → find j (insert k v m)
        ≡ (if is_some (find k m) then find j m else if k == j then some v else find j m)
  unfolding find insert
  find-insert k j v lo [] s = ground arith
  find-insert k j v lo ((i, w) ∷ m) s =
      ground (arith, find-insert k j v (suc i) m s.1, find_below k (suc i) m s.1)

  pub find-assign :
      (k j : ℕ) (v : V) (m : List (ℕ × V))
      → find j (assign k v m)
        ≡ (if k == j then (if is_some (find k m) then some v else none) else find j m)
  unfolding find assign
  find-assign k j v [] = ground arith
  find-assign k j v ((i, w) ∷ m) = ground (arith, find-assign k j v m)

  pub next_key-above : (k j : ℕ) (m : List (ℕ × V)) → next_key k m ≡ some j → k < j
  unfolding next_key
  next_key-above k j [] e = ground arith
  next_key-above k j ((i, w) ∷ m) e = ground (arith, next_key-above k j m)
