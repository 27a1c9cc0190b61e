-- ===== src/Process/Stream.antt =====
-- The stream of random bytes of a process, getrandom, and that it does not depend on how it is read.
use Prim.Native.Nat.{bit_xor}
use mathlib.Core.List.{append_assoc}
use det_sim.Base.{
  ℕ, zero, suc, ◌+◌, ◌*◌, ◌/◌, ◌%◌, ◌^◌, ◌≤◌, ◌<◌, ◌≡◌, refl, ap, sym, ◌∙◌, Bool, true, false, ◌&&◌,
  ◌||◌, not, List, [], ◌∷◌, ◌++◌, length, length-append, take, min, ◌==◌, if◌then◌else◌, arith,
  SysResult, ret, errno, einval, efault,
}
use det_sim.Fd.{has_bit}
use det_sim.Wire.Bytes.{little, length-little}

abbrev pub word : ℕ → ℕ
word n = n % 2 ^ 64

-- The state after a word, and the word.
unfoldable pub next_state : ℕ → ℕ
next_state s =
    let a = bit_xor s (s / 4096) in
    let b = bit_xor a (word (a * 33554432)) in bit_xor b (b / 134217728)

abbrev pub random_word : ℕ → ℕ
random_word s = word (next_state s * 2685821657736338717)

-- The bytes of some words, and the state after them.
unfoldable pub random_words : ℕ → ℕ → List ℕ × ℕ
random_words zero seed = ([], seed)
random_words (suc n) seed =
    let rest = random_words n (next_state seed) in (little 8 (random_word seed) ++ rest.0, rest.1)

abbrev pub random_limit : ℕ
random_limit = 262144

-- GRND_NONBLOCK is 1, GRND_RANDOM 2 and GRND_INSECURE 4; `written` says whether the write into guest
-- memory succeeds. The result, what is written, and the state of the stream.
unfoldable pub getrandom : ℕ → ℕ → ℕ → Bool → SysResult × List ℕ × ℕ
getrandom seed length flags written =
    let count = min length random_limit in
    let words = random_words ((count + 7) / 8) seed in
    if not (flags % 8 == flags) || has_bit 2 flags && has_bit 4 flags
    then (errno einval, [], seed)
    else if count == 0
    then (ret 0, [], seed)
    else if not written
    then (errno efault, [], seed)
    else (ret count, take count words.0, words.1)

random_words-add :
    (m n seed : ℕ)
    → let first = random_words m seed in
      let second = random_words n first.1 in
      random_words (m + n) seed ≡ (first.0 ++ second.0, second.1)
unfolding random_words
random_words-add zero n seed = let e : 0 + n ≡ n = omega arith in rw e refl
random_words-add (suc m) n seed =
    let e : suc m + n ≡ suc (m + n) = omega arith in
    let first = random_words m (next_state seed) in
    let second = random_words n first.1 in
    rw e (
      rw (random_words-add m n (next_state seed)) (
        ap (λ x. (x, second.1))
          (sym (append_assoc (little 8 (random_word seed)) first.0 second.0))))

length-random_words : (n seed : ℕ) → length (random_words n seed).0 ≡ n * 8
unfolding random_words
length-random_words zero seed = omega arith
length-random_words (suc n) seed = omega (
  arith,
  length-append (little 8 (random_word seed)) (random_words n (next_state seed)).0,
  length-little 8 (random_word seed),
  length-random_words n (next_state seed),
)

take-all : (bs : List ℕ) (n : ℕ) → length bs ≡ n → take n bs ≡ bs
take-all [] zero h = refl
take-all [] (suc n) h = refl
take-all (b ∷ bs) zero h = absurd (omega arith)
take-all (b ∷ bs) (suc n) h = ap (λ x. b ∷ x) (take-all bs n (omega arith))

-- A read of whole words.
reads_words :
    (seed words flags : ℕ)
    → 0 < words
    → words * 8 ≤ random_limit
    → (not (flags % 8 == flags) || has_bit 2 flags && has_bit 4 flags) ≡ false
    → getrandom seed (words * 8) flags true
      ≡ (ret (words * 8), (random_words words seed).0, (random_words words seed).1)
unfolding getrandom
reads_words seed words flags lo hi good =
    let all : min (words * 8) random_limit ≡ words * 8 = omega arith in
    let some_bytes : words * 8 == 0 ≡ false = ground arith in
    let rounded : (words * 8 + 7) / 8 ≡ words = omega arith in
    rw all (
      rw rounded (
        rw good (
          rw some_bytes (
            rw (take-all (random_words words seed).0 (words * 8) (length-random_words words seed))
              refl))))

-- Two reads of whole words, within the limit together and with valid flags, give what one read of both
-- gives, and leave the same state.
pub getrandom-getrandom :
    (seed m n flags : ℕ)
    → 0 < m
    → 0 < n
    → m * 8 + n * 8 ≤ random_limit
    → (not (flags % 8 == flags) || has_bit 2 flags && has_bit 4 flags) ≡ false
    → let (r, first, middle) = getrandom seed (m * 8) flags true in
      let (q, second, last) = getrandom middle (n * 8) flags true in
      (r ≡ ret (m * 8))
      × (q ≡ ret (n * 8))
      × (getrandom seed ((m + n) * 8) flags true ≡ (ret ((m + n) * 8), first ++ second, last))
getrandom-getrandom seed m n flags a b fits good =
    let middle = (random_words m seed).1 in
    rw (reads_words seed m flags a (omega arith) good) (
      rw (reads_words middle n flags b (omega arith) good) (
        refl,
        refl,
        reads_words seed (m + n) flags (omega arith) (omega arith) good
            ∙ rw (random_words-add m n seed) refl,
      ))
