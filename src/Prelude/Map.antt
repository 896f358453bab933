-- ===== src/Prelude/Map.antt =====
-- `std::map<K, V, Compare>` as the list of its entries in order, and `std::unordered_map` with number
-- keys as a list of entries in no order.
use Prim.Native.Nat.{ℕ}
use mathlib.Core.Bool.{Bool, not, ◌&&◌}
use mathlib.Core.Option.{Option, none, some}
use mathlib.Core.List.{List, [], ◌∷◌}
use low_latency_project.Prelude.Tests.{◌==◌, if◌then◌else◌}

abbrev pub Entries : Type 0 → Type 0 → Type 0
Entries K V = List (K × V)

module _ {K V : Type 0} where
  -- The key of the node that `begin()` points to; `none` is `end()`.
  abbrev pub first_key : Entries K V → Option K
  first_key [] = none
  first_key ((k, v) ∷ m) = some k

-- Two keys are the same entry if neither comes before the other.
abbrev pub equivalent : {K : Type 0} → (K → K → Bool) → K → K → Bool
equivalent less a b = not (less a b) && not (less b a)

module _ {K V : Type 0} (less : K → K → Bool) where
  unfoldable pub find : K → Entries K V → Option V
  find k [] = none
  find k ((j, v) ∷ m) = if equivalent less k j then some v else find k m

  -- `m[k] = v`
  unfoldable pub put : K → V → Entries K V → Entries K V
  put k v [] = (k, v) ∷ []
  put k v ((j, w) ∷ m) =
      if less k j then (k, v) ∷ (j, w) ∷ m else if less j k then (j, w) ∷ put k v m else (j, v) ∷ m

  unfoldable pub erase : K → Entries K V → Entries K V
  erase k [] = []
  erase k ((j, w) ∷ m) = if equivalent less k j then m else (j, w) ∷ erase k m

module _ {V : Type 0} where
  unfoldable pub lookup : ℕ → Entries ℕ V → Option V
  lookup k [] = none
  lookup k ((j, v) ∷ m) = if k == j then some v else lookup k m

  unfoldable pub assign : ℕ → V → Entries ℕ V → Entries ℕ V
  assign k v [] = (k, v) ∷ []
  assign k v ((j, w) ∷ m) = if k == j then (j, v) ∷ m else (j, w) ∷ assign k v m

  unfoldable pub remove_key : ℕ → Entries ℕ V → Entries ℕ V
  remove_key k [] = []
  remove_key k ((j, w) ∷ m) = if k == j then m else (j, w) ∷ remove_key k m
