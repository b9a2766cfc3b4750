-- ===== src/Prelude/Maps.antt =====
-- `std::unordered_map` and the sets of the program, as lists. Keys are compared by a decision, and
-- the order of the list is the order of iteration.
use mathlib.Core.Path.{◌≡◌, refl}
use mathlib.Core.Logic.{ite, ◌⊎◌, inr}
use mathlib.Core.Bool.{Bool, true, false}
use mathlib.Core.Option.{Option, none, some}
use mathlib.Core.List.{List, [], ◌∷◌}
use native.Mathlib.Omega.{arith}

module _ {K : Type 0} (same : Discrete K) where
  -- `s.find(k) != s.end()`
  unfoldable pub contains : K → List K → Bool
  contains k [] = false
  contains k (j ∷ s) = ite (same j k) true (contains k s)

  -- `s.insert(k)`
  unfoldable pub insert : K → List K → List K
  insert k [] = k ∷ []
  insert k (j ∷ s) = ite (same j k) (j ∷ s) (j ∷ insert k s)

  -- `s.erase(k)`
  unfoldable pub discard : K → List K → List K
  discard k [] = []
  discard k (j ∷ s) = let rest = discard k s in ite (same j k) rest (j ∷ rest)

  pub contains-insert :
      (k j : K) (s : List K) → contains j (insert k s) ≡ ite (same k j) true (contains j s)
  unfolding contains insert
  contains-insert k j [] = refl
  contains-insert k j (i ∷ s) = ground (arith, contains-insert k j s)

  pub contains-discard :
      (k j : K) (s : List K) → contains j (discard k s) ≡ ite (same k j) false (contains j s)
  unfolding contains discard
  contains-discard k j [] = ground arith
  contains-discard k j (i ∷ s) = ground (arith, contains-discard k j s)

module _ {K V : Type 0} (same : Discrete K) where
  -- `m.find(k)`
  unfoldable pub find : K → List (K × V) → Option V
  find k [] = none
  find k ((j, v) ∷ m) = ite (same j k) (some v) (find k m)

  -- `m.emplace(k, v)`: a key that is there keeps its value
  unfoldable pub emplace : K → V → List (K × V) → List (K × V)
  emplace k v [] = (k, v) ∷ []
  emplace k v ((j, w) ∷ m) = ite (same j k) ((j, w) ∷ m) ((j, w) ∷ emplace k v m)

  -- `it->second = v`, for the `it` that `find(k)` gave
  unfoldable pub assign : K → V → List (K × V) → List (K × V)
  assign k v [] = []
  assign k v ((j, w) ∷ m) = ite (same j k) ((j, v) ∷ m) ((j, w) ∷ assign k v m)

  -- `m.erase(k)`
  unfoldable pub erase : K → List (K × V) → List (K × V)
  erase k [] = []
  erase k ((j, w) ∷ m) = let rest = erase k m in ite (same j k) rest ((j, w) ∷ rest)

  -- The value kept by `emplace`.
  abbrev pub old_or : Option V → V → V
  old_or none v = v
  old_or (some w) v = w

  -- The value after `assign`, which needs the key to be there.
  abbrev pub renewed : Option V → V → Option V
  renewed none v = none
  renewed (some w) v = some v

  pub find-emplace :
      (k j : K) (v : V) (m : List (K × V))
      → find j (emplace k v m) ≡ ite (same k j) (some (old_or (find j m) v)) (find j m)
  unfolding find emplace
  find-emplace k j v [] = ground arith
  find-emplace k j v ((i, w) ∷ m) = ground (arith, find-emplace k j v m)

  pub find-assign :
      (k j : K) (v : V) (m : List (K × V))
      → find j (assign k v m) ≡ ite (same k j) (renewed (find j m) v) (find j m)
  unfolding find assign
  find-assign k j v [] = ground arith
  find-assign k j v ((i, w) ∷ m) = ground (arith, find-assign k j v m)

  pub find-erase :
      (k j : K) (m : List (K × V)) → find j (erase k m) ≡ ite (same k j) none (find j m)
  unfolding find erase
  find-erase k j [] = ground arith
  find-erase k j ((i, w) ∷ m) = ground (arith, find-erase k j m)

  -- The keys in order of iteration.
  abbrev pub keys : List (K × V) → List K
  keys [] = []
  keys ((k, v) ∷ m) = k ∷ keys m

  pub contains-keys :
      (k : K) (m : List (K × V)) → (contains same k (keys m) ≡ true) ⊎ (find k m ≡ none)
  unfolding find contains
  contains-keys k [] = inr refl
  contains-keys k ((j, v) ∷ m) = ground (arith, contains-keys k m)

  -- A map holds each key once.
  abbrev pub IsMap : List (K × V) → Type 0
  IsMap [] = Unit {0}
  IsMap ((k, v) ∷ m) = (find k m ≡ none) × IsMap m

  pub emplace-IsMap : (k : K) (v : V) (m : List (K × V)) → IsMap m → IsMap (emplace k v m)
  unfolding find emplace
  emplace-IsMap k v [] h = (refl, tt)
  emplace-IsMap k v ((j, w) ∷ m) h = ground (arith, emplace-IsMap k v m h.1, find-emplace k j v m)

  pub assign-IsMap : (k : K) (v : V) (m : List (K × V)) → IsMap m → IsMap (assign k v m)
  unfolding find assign
  assign-IsMap k v [] h = tt
  assign-IsMap k v ((j, w) ∷ m) h = ground (arith, assign-IsMap k v m h.1, find-assign k j v m)

  pub erase-IsMap : (k : K) (m : List (K × V)) → IsMap m → IsMap (erase k m)
  unfolding find erase
  erase-IsMap k [] h = tt
  erase-IsMap k ((j, w) ∷ m) h = ground (arith, erase-IsMap k m h.1, find-erase k j m)
