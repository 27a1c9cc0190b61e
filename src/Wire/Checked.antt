-- ===== src/Wire/Checked.antt =====
-- What a reader lets through: whatever bytes a peer sends, the message that is received fits.
use mathlib.Core.List.{append_assoc, append-nil}
use det_sim.Base.{
  length-take, length-drop, take-append-drop, ℕ, zero, suc, ◌+◌, ◌^◌, ◌≤◌, ◌<◌, ◌≡◌, refl, ap, ◌∙◌,
  sym, subst, Bool, false, not, ltb, ◌==◌, List, [], ◌∷◌, ◌++◌, length, take, drop, arith, ok,
  throws, Outcome-cases, Bool-cases, inl, inr, throw_if,
}
use det_sim.Wire.{WireError}
use det_sim.Wire.Bytes.{AllBytes, little, number-lt, little-number}
use det_sim.Wire.Layout.{flag_byte}
use det_sim.Wire.Decode.{
  Reader, Read, ◌>>=◌, ◌>>◌, give, read_bytes, read_scalar, read_boolean, read_length, check_length,
  check_count,
}
use det_sim.Wire.Parts.{IsWord}

-- A read that succeeds: what holds of its value and of the bytes that it took, and that the payload
-- lost as many bytes as the input.
pub record Gives {A : Type 0} (P : A → List ℕ → Type 0) (r : Reader) (a : A) (s : Reader)
    : Type 0 where
  pub written : List ℕ
  pub holds : P a written
  pub bytes : AllBytes s.input
  pub split : r.input ≡ written ++ s.input
  pub taken : s.remaining + length r.input ≡ r.remaining + length s.input

pub record Checks {A : Type 0} (rd : Read A) (P : A → List ℕ → Type 0) : Type 0 where
  pub check : (r s : Reader) (a : A) → AllBytes r.input → rd r ≡ ok (a, s) → Gives P r a s

module _ {A B : Type 0} where
  pub bind :
      {rd : Read A} {P : A → List ℕ → Type 0} {Q : B → List ℕ → Type 0} (k : A → Read B)
      → Checks rd P
      → ((a : A) (w : List ℕ) → P a w → Checks (k a) (λ b v. Q b (w ++ v)))
      → Checks (rd >>= k) Q
  unfolding ◌>>=◌
  bind {rd} k p q = record {
    check = λ r s b h e. elim (Outcome-cases (rd r)) [
      | inr (x, i) ↦ absurd (ground arith)
      | inl ((a, t), i) ↦
          let g = p.check r t a h i in
          let f = (q a g.written g.holds).check t s b g.bytes (rw i at e) in
          record {
            written = g.written ++ f.written;
            holds = f.holds;
            bytes = f.bytes;
            split =
                g.split
                ∙ (ap (λ x. g.written ++ x) f.split
                    ∙ sym (append_assoc g.written f.written s.input));
            taken = omega (arith, g.taken, f.taken);
          }
    ];
  }

module _ {A : Type 0} where
  pub guard :
      {bad : Bool} {rd : Read A} {P : A → List ℕ → Type 0} (x : WireError)
      → (bad ≡ false → Checks rd P)
      → Checks (throw_if bad x >> rd) P
  unfolding ◌>>◌
  guard {bad = bad} x p = record {
    check = λ r s a h e. elim (Bool-cases bad) [
      | inl b ↦ absurd (ground arith)
      | inr b ↦ (p b).check r s a h (rw b at e)
    ];
  }

  -- A reader that takes nothing and leaves what is read as it is.
  pub takes_nothing :
      {P : A → List ℕ → Type 0} (r s : Reader) (a : A)
      → AllBytes r.input
      → s ≡ r
      → P a []
      → Gives P r a s
  takes_nothing r s a h e p = record {
    written = [];
    holds = p;
    bytes = rw e h;
    split = rw e refl;
    taken = rw e (omega arith);
  }

  pub gives : {P : A → List ℕ → Type 0} (a : A) → P a [] → Checks (give a) P
  unfolding give
  gives {P} a p = record {
    check =
        λ r s b h e. takes_nothing r s b h (ground arith) (subst (λ x. P x []) (ground arith) p);
  }

  pub imply :
      {rd : Read A} {P Q : A → List ℕ → Type 0}
      → Checks rd P
      → ((a : A) (w : List ℕ) → P a w → Q a w)
      → Checks rd Q
  imply p f = record {
    check = λ r s a h e.
        let g = p.check r s a h e in
        record {
          written = g.written;
          holds = f a g.written g.holds;
          bytes = g.bytes;
          split = g.split;
          taken = g.taken;
        };
  }

-- A read that always throws lets nothing through.
pub never : {A : Type 0} {P : A → List ℕ → Type 0} (x : WireError) → Checks (λ r. throws x) P
never x = record { check = λ r s a h e. absurd (ground arith) }

pub AllBytes-take : (n : ℕ) (bs : List ℕ) → AllBytes bs → AllBytes (take n bs)
AllBytes-take zero bs h = tt
AllBytes-take (suc n) [] h = tt
AllBytes-take (suc n) (b ∷ bs) h = (h.0, AllBytes-take n bs h.1)

pub AllBytes-drop : (n : ℕ) (bs : List ℕ) → AllBytes bs → AllBytes (drop n bs)
AllBytes-drop zero bs h = h
AllBytes-drop (suc n) [] h = h
AllBytes-drop (suc n) (b ∷ bs) h = AllBytes-drop n bs h.1

abbrev pub Counted : ℕ → List ℕ → List ℕ → Type 0
Counted n bs w = AllBytes bs × (length bs ≡ n) × (w ≡ bs)

pub bytes-Checks : (n : ℕ) → Checks (read_bytes n) (Counted n)
unfolding read_bytes
bytes-Checks n = record {
  check = λ r s bs h e.
      let value : bs ≡ take n r.input = ground arith in
      let rest : s.input ≡ drop n r.input = ground arith in
      let long : n ≤ length r.input = ground arith in
      record {
        written = bs;
        holds = (
          subst AllBytes (sym value) (AllBytes-take n r.input h),
          ap length value ∙ length-take n r.input long,
          refl,
        );
        bytes = subst AllBytes (sym rest) (AllBytes-drop n r.input h);
        split = rw (value, rest) (sym (take-append-drop n r.input));
        taken = ground (arith, length-drop n r.input);
      };
}

-- A word of `k` bytes.
abbrev pub OnWire : ℕ → ℕ → List ℕ → Type 0
OnWire k n w = (n < 256 ^ k) × (w ≡ little k n)

pub scalar-Checks : (k : ℕ) → Checks (read_scalar k) (OnWire k)
unfolding read_scalar
scalar-Checks k = bind _ (bytes-Checks k) (λ bs w h.
    gives _ (
      rw (← h.1) (number-lt bs h.0),
      rw (← h.1) (append-nil w ∙ (h.2 ∙ sym (little-number bs h.0))),
    ))

-- A word is on the wire as its eight bytes.
pub word-Checks : Checks (read_scalar 8) (λ n w. IsWord n × (w ≡ little 8 n))
word-Checks = scalar-Checks 8

pub boolean-Checks : Checks read_boolean (λ b w. w ≡ little 1 (flag_byte b))
unfolding read_boolean
boolean-Checks =
    bind _ (scalar-Checks 1)
      (λ n w h. guard _ (λ b. gives _ (append-nil w ∙ (h.1 ∙ ap (little 1) (flag n b)))))
  where
    flag : (n : ℕ) → ltb 1 n ≡ false → n ≡ flag_byte (not (n == 0))
    flag n b = elim (Bool-cases (n == 0)) [
      | inl e ↦ rw e (ground arith)
      | inr e ↦ rw e (ground arith)
    ]

-- A test of a length leaves it.
abbrev pub IsAllowed : ℕ → ℕ → ℕ → List ℕ → Type 0
IsAllowed limit n m w = (m ≤ limit) × (m ≡ n) × (w ≡ [])

check_length-Checks : (limit n : ℕ) → Checks (check_length limit n) (IsAllowed limit n)
unfolding check_length
check_length-Checks limit n = record {
  check = λ r s m h e. takes_nothing r s m h (ground arith) (ground arith, ground arith, refl);
}

pub check_count-Checks : (limit n : ℕ) → Checks (check_count limit n) (IsAllowed limit n)
unfolding check_count
check_count-Checks limit n = record {
  check = λ r s m h e. takes_nothing r s m h (ground arith) (ground arith, ground arith, refl);
}

pub length-Checks : (limit : ℕ) → Checks (read_length limit) (λ m w. (m ≤ limit) × (w ≡ little 8 m))
unfolding read_length
length-Checks limit =
    bind _ word-Checks
      (λ n w h. imply (check_length-Checks limit n) (λ m v c. (c.0, rw (c.2, append-nil, c.1) h.1)))
