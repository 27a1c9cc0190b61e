-- ===== src/Base/Map.antt =====
-- std::map with numeric keys, as the list of its entries in key order.
use Prim.Native.Nat.{ℕ, suc, ◌≤◌, ◌<◌}
use mathlib.Core.Path.{◌≡◌, refl}
use mathlib.Core.Bool.{Bool, false, ◌||◌}
use mathlib.Core.Option.{Option, none, some}
use mathlib.Core.List.{List, [], ◌∷◌}
use native.Mathlib.Omega.{arith}
use det_sim.Base.Tests.{ltb, ◌==◌, if◌then◌else◌}

abbrev pub Map {ℓ} : Type ℓ → Type ℓ
Map V = List (ℕ × V)

module _ {ℓ} {V : Type ℓ} where
  -- `m.find(k)`, with `none` for `m.end()`.
  unfoldable pub find : ℕ → Map V → Option V
  find k [] = none
  find k ((j, v) ∷ m) = if j == k then some v else find k m

  -- `m[k] = v`.
  unfoldable pub put : ℕ → V → Map V → Map V
  put k v [] = (k, v) ∷ []
  put k v ((j, w) ∷ m) =
      if j == k then (k, v) ∷ m else if ltb k j then (k, v) ∷ (j, w) ∷ m else (j, w) ∷ put k v m

  -- A write through a found iterator, `it->second = f(it->second)`; no entry, no write.
  unfoldable pub modify : ℕ → (V → V) → Map V → Map V
  modify k f [] = []
  modify k f ((j, w) ∷ m) = if j == k then (j, f w) ∷ m else (j, w) ∷ modify k f m

  -- `m.emplace(k, v)`: an entry that is there stays.
  unfoldable pub emplace : ℕ → V → Map V → Map V
  emplace k v [] = (k, v) ∷ []
  emplace k v ((j, w) ∷ m) =
      if j == k then (j, w) ∷ m else if ltb k j then (k, v) ∷ (j, w) ∷ m else (j, w) ∷ emplace k v m

  -- `m.erase(k)`.
  unfoldable pub erase : ℕ → Map V → Map V
  erase k [] = []
  erase k ((j, w) ∷ m) = let rest = erase k m in if j == k then rest else (j, w) ∷ rest

  unfoldable pub contains : ℕ → Map V → Bool
  contains k [] = false
  contains k ((j, v) ∷ m) = j == k || contains k m

  abbrev pub keys : Map V → List ℕ
  keys [] = []
  keys ((j, v) ∷ m) = j ∷ keys m

  -- The keys rise strictly, from `lo` on.
  abbrev pub From : ℕ → Map V → Type 0
  From lo [] = Unit {0}
  From lo ((j, v) ∷ m) = (lo ≤ j) × From (suc j) m

  abbrev pub Ordered : Map V → Type 0
  Ordered m = From 0 m

  pub find-put :
      (k j : ℕ) (v : V) (m : Map V) → find j (put k v m) ≡ (if k == j then some v else find j m)
  unfolding find put
  find-put k j v [] = refl
  find-put k j v ((i, w) ∷ m) = ground (arith, find-put k j v m)

  pub find-erase : (k j : ℕ) (m : Map V) → find j (erase k m) ≡ (if k == j then none else find j m)
  unfolding find erase
  find-erase k j [] = ground arith
  find-erase k j ((i, w) ∷ m) = ground (arith, find-erase k j m)

  -- `f` at the value, if there is one.
  abbrev pub apply : (V → V) → Option V → Option V
  apply f none = none
  apply f (some v) = some (f v)

  pub find-modify :
      (k j : ℕ) (f : V → V) (m : Map V)
      → find j (modify k f m) ≡ (if k == j then apply f (find j m) else find j m)
  unfolding find modify
  find-modify k j f [] = ground arith
  find-modify k j f ((i, w) ∷ m) = ground (arith, find-modify k j f m)

  pub From-mono : {lo hi : ℕ} (m : Map V) → lo ≤ hi → From hi m → From lo m
  From-mono [] h o = tt
  From-mono ((j, v) ∷ m) h o = (omega arith, o.1)

  pub put-From : (lo k : ℕ) (v : V) (m : Map V) → lo ≤ k → From lo m → From lo (put k v m)
  unfolding put
  put-From lo k v [] h o = (h, tt)
  put-From lo k v ((j, w) ∷ m) h o = ground (arith, put-From (suc j) k v m)

  pub erase-From : (lo k : ℕ) (m : Map V) → From lo m → From lo (erase k m)
  unfolding erase
  erase-From lo k [] o = tt
  erase-From lo k ((j, w) ∷ m) o =
      ground (arith, erase-From (suc j) k m o.1, From-mono {lo = lo} {hi = suc j} (erase k m))

  pub modify-From : (lo k : ℕ) (f : V → V) (m : Map V) → From lo m → From lo (modify k f m)
  unfolding modify
  modify-From lo k f [] o = tt
  modify-From lo k f ((j, w) ∷ m) o = ground (arith, modify-From (suc j) k f m o.1)

  pub find_below : (lo k : ℕ) (m : Map V) → From lo m → k < lo → find k m ≡ none
  unfolding find
  find_below lo k [] o h = refl
  find_below lo k ((j, v) ∷ m) o h = ground (arith, find_below (suc j) k m o.1)
