-- ===== src/Wire/Bytes.antt =====
-- Words as little-endian bytes: `little` and `number`.
use native.Mathlib.Nat.{pow-succ'}
use det_sim.Base.{
  ℕ, zero, suc, ◌+◌, ◌*◌, ◌/◌, ◌%◌, ◌^◌, ◌<◌, ◌≡◌, refl, ap, List, [], ◌∷◌, arith, length,
}

-- The bytes of a word of `k` bytes, the lowest first.
unfoldable pub little : ℕ → ℕ → List ℕ
little zero value = []
little (suc k) value = (value % 256) ∷ little k (value / 256)

-- `number`, of all the bytes: those above are shifted past those below.
unfoldable pub number : List ℕ → ℕ
number [] = 0
number (b ∷ bs) = b + number bs * 256

pub length-little : (k value : ℕ) → length (little k value) ≡ k
unfolding little
length-little zero value = refl
length-little (suc k) value = ap suc (length-little k (value / 256))

pub number-little : (k value : ℕ) → value < 256 ^ k → number (little k value) ≡ value
unfolding little number
number-little zero value h = omega arith
number-little (suc k) value h =
    let fits : value < 256 * 256 ^ k = rw pow-succ' at h in
    omega (arith, number-little k (value / 256) (omega arith))

abbrev pub IsByte : ℕ → Type 0
IsByte b = b < 256

abbrev pub AllBytes : List ℕ → Type 0
AllBytes [] = Unit {0}
AllBytes (b ∷ bs) = IsByte b × AllBytes bs

pub number-lt : (bs : List ℕ) → AllBytes bs → number bs < 256 ^ length bs
unfolding number
number-lt [] h = omega arith
number-lt (b ∷ bs) h = rw pow-succ' (omega (arith, number-lt bs h.1, h.0))

pub little-number : (bs : List ℕ) → AllBytes bs → little (length bs) (number bs) ≡ bs
unfolding little number
little-number [] h = refl
little-number (b ∷ bs) h =
    let low : (b + number bs * 256) % 256 ≡ b = omega (arith, h.0) in
    let high : (b + number bs * 256) / 256 ≡ number bs = omega (arith, h.0) in
    rw (low, high, little-number bs h.1) refl
