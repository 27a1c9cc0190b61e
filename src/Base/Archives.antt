-- ===== src/Base/Archives.antt =====
-- The archives of the cereal library: a scalar is written as some bytes, and read back from them.
use mathlib.Core.Path.{◌≡◌, refl}
use Prim.Native.Nat.{ℕ, zero, suc}
use mathlib.Core.Option.{Option, none, some}
use mathlib.Core.List.{List, [], ◌∷◌, ◌++◌}
use det_sim.Base.Int.{ℤ, pos, negsuc}

-- What the code relies on: reading gives the scalar that was written and leaves what follows it.
pub record Codec : Type 0 where
  pub encode : ℤ → List ℕ
  pub decode : List ℕ → Option (ℤ × List ℕ)
  pub decode-encode : (n : ℤ) (rest : List ℕ) → decode (encode n ++ rest) ≡ some (n, rest)

tagged_encode : ℤ → List ℕ
tagged_encode (pos n) = 0 ∷ n ∷ []
tagged_encode (negsuc n) = 1 ∷ n ∷ []

tagged_decode : List ℕ → Option (ℤ × List ℕ)
tagged_decode [] = none
tagged_decode (t ∷ []) = none
tagged_decode (zero ∷ n ∷ rest) = some (pos n, rest)
tagged_decode (suc t ∷ n ∷ rest) = some (negsuc n, rest)

tagged_decode-encode :
    (n : ℤ) (rest : List ℕ) → tagged_decode (tagged_encode n ++ rest) ≡ some (n, rest)
unfolding tagged_encode tagged_decode
tagged_decode-encode (pos n) rest = refl
tagged_decode-encode (negsuc n) rest = refl

-- A sign byte and a magnitude: an archive that meets the law.
unfoldable pub tagged : Codec
unfolding tagged_encode tagged_decode tagged_decode-encode
tagged = record {
  encode = tagged_encode;
  decode = tagged_decode;
  decode-encode = tagged_decode-encode;
}
