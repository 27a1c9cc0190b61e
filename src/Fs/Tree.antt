-- ===== src/Fs/Tree.antt =====
-- std::map with string keys, as the list of its entries in key order.
use det_sim.Base.{◌≡◌, refl, Option, none, some, List, [], ◌∷◌, arith, if◌then◌else◌}
use det_sim.Fs.Strings.{Text, same, before, same_iff}

abbrev pub Tree {ℓ} : Type ℓ → Type ℓ
Tree V = List (Text × V)

module _ {ℓ} {V : Type ℓ} where
  -- `m.find(k)`.
  unfoldable pub look : Text → Tree V → Option V
  look k [] = none
  look k ((j, v) ∷ m) = if same j k then some v else look k m

  -- `m[k] = v`.
  unfoldable pub put_at : Text → V → Tree V → Tree V
  put_at k v [] = (k, v) ∷ []
  put_at k v ((j, w) ∷ m) =
      if same j k
      then (k, v) ∷ m
      else if before k j
      then (k, v) ∷ (j, w) ∷ m
      else (j, w) ∷ put_at k v m

  -- A write through a found iterator.
  unfoldable pub change_at : Text → (V → V) → Tree V → Tree V
  change_at k f [] = []
  change_at k f ((j, w) ∷ m) = if same j k then (j, f w) ∷ m else (j, w) ∷ change_at k f m

  -- `m.erase(k)`, and `m.extract(k)` of the map that stays.
  unfoldable pub erase_at : Text → Tree V → Tree V
  erase_at k [] = []
  erase_at k ((j, w) ∷ m) = let rest = erase_at k m in if same j k then rest else (j, w) ∷ rest

  abbrev pub apply : (V → V) → Option V → Option V
  apply f none = none
  apply f (some v) = some (f v)

  pub look-put_at :
      (k j : Text) (v : V) (m : Tree V)
      → look j (put_at k v m) ≡ (if same k j then some v else look j m)
  unfolding look put_at
  look-put_at k j v [] = refl
  look-put_at k j v ((i, w) ∷ m) =
      ground (arith, look-put_at k j v m, same_iff i k, same_iff i j, same_iff k j)

  pub look-change_at :
      (k j : Text) (f : V → V) (m : Tree V)
      → look j (change_at k f m) ≡ (if same k j then apply f (look j m) else look j m)
  unfolding look change_at
  look-change_at k j f [] = ground arith
  look-change_at k j f ((i, w) ∷ m) =
      ground (arith, look-change_at k j f m, same_iff i k, same_iff i j, same_iff k j)

  pub look-erase_at :
      (k j : Text) (m : Tree V) → look j (erase_at k m) ≡ (if same k j then none else look j m)
  unfolding look erase_at
  look-erase_at k j [] = ground arith
  look-erase_at k j ((i, w) ∷ m) =
      ground (arith, look-erase_at k j m, same_iff i k, same_iff i j, same_iff k j)
