-- ===== src/Wire/Law.antt =====
-- What it means that a reader reads what a writer writes, with the rules for the parts of a message.
use mathlib.Core.List.{append_assoc, append-nil}
use native.Mathlib.Nat.{add_assoc}
use Prim.Native.Nat.add
use det_sim.Base.{
  ℕ, ◌+◌, ◌*◌, ◌≤◌, ◌≡◌, refl, ap, ◌∙◌, Bool, false, List, [], ◌++◌, length, length-append, arith,
  ok, throw_if, Outcome-cases, inl, inr, Bool-cases,
}
use det_sim.Wire.{Limits, WireError}
use det_sim.Wire.Encode.{Writer, Write, ◌then_write◌, write_nothing, refuse_if}
use det_sim.Wire.Decode.{◌>>◌, Reader, Read, ◌>>=◌, give, check_length, check_count}

-- Whenever the writer succeeds it appends some bytes, at least `least` of them, which it counts, and the
-- reader takes just these from the payload and gives `a`.
pub record Reads {A : Type 0} (l : Limits) (wr : Write) (rd : Read A) (a : A) (least : ℕ)
    (w v : Writer) : Type 0 where
  pub written : List ℕ
  pub sent : v.sent ≡ w.sent ++ written
  pub size : v.size ≡ w.size + length written
  pub enough : least ≤ length written
  pub within : w.size ≤ l.max_frame_bytes → v.size ≤ l.max_frame_bytes
  pub reads :
      (r : ℕ) (rest : List ℕ)
      → rd (record { remaining = length written + r; input = written ++ rest })
        ≡ ok (a, record { remaining = r; input = rest })

pub record Law {A : Type 0} (l : Limits) (wr : Write) (rd : Read A) (a : A) (least : ℕ)
    : Type 0 where
  pub law : (w v : Writer) → wr w ≡ ok v → Reads l wr rd a least w v

-- A write that succeeds in two steps.
split :
    (f g : Write) (w v : Writer)
    → (f then_write g) w ≡ ok v
    → (u : Writer) × (f w ≡ ok u) × (g u ≡ ok v)
unfolding ◌then_write◌
split f g w v e = elim (Outcome-cases (f w)) [
  | inr (x, h) ↦ absurd (ground arith)
  | inl (u, h) ↦ (u, h, rw h at e)
]

module _ {A B : Type 0} where
  join :
      {l : Limits} {f g : Write} {rd : Read A} {a : A} {b : B} {n m : ℕ} {w u v : Writer}
      (k : A → Read B)
      → Reads l f rd a n w u
      → Reads l g (k a) b m u v
      → Reads l (f then_write g) (rd >>= k) b (n + m) w v
  unfolding ◌>>=◌
  join {w = w} k s t = record {
    written = s.written ++ t.written;
    sent = t.sent ∙ (ap (λ x. x ++ t.written) s.sent ∙ append_assoc w.sent s.written t.written);
    size = omega (arith, s.size, t.size, length-append s.written t.written);
    enough = omega (arith, s.enough, t.enough, length-append s.written t.written);
    within = λ h. t.within (s.within h);
    reads = λ r rest.
        rw
          (
            length-append s.written t.written,
            append_assoc s.written t.written rest,
            add_assoc (length s.written) (length t.written) r,
            s.reads (length t.written + r) (t.written ++ rest),
          )
          (t.reads r rest);
  }

  pub seq :
      {l : Limits} {f g : Write} {rd : Read A} {a : A} {b : B} {n m : ℕ} (k : A → Read B)
      → Law l f rd a n
      → Law l g (k a) b m
      → Law l (f then_write g) (rd >>= k) b (n + m)
  seq {f = f} {g = g} k p q = record {
    law = λ w v e. let (u, h, i) = split f g w v e in join k (p.law w u h) (q.law u v i);
  }

  -- The last read of a chain: what follows it gives a value at once.
  pub last :
      {l : Limits} {f : Write} {rd : Read A} {a : A} {b : B} {n : ℕ} (k : A → Read B)
      → Law l f rd a n
      → ((r : Reader) → k a r ≡ ok (b, r))
      → Law l f (rd >>= k) b n
  unfolding ◌>>=◌
  last k p q = record {
    law = λ w v e.
        let s = p.law w v e in
        record {
          written = s.written;
          sent = s.sent;
          size = s.size;
          enough = s.enough;
          within = s.within;
          reads = λ r rest. rw (s.reads r rest) (q _);
        };
  }

-- The limit that a write tests holds of what it writes.
pub refuse :
    {A : Type 0} {bad : Bool} {l : Limits} {f : Write} {rd : Read A} {a : A} {n : ℕ} (x : WireError)
    → (bad ≡ false → Law l f rd a n)
    → Law l (refuse_if bad x f) rd a n
unfolding refuse_if
refuse {bad = bad} x p = record {
  law = λ w v e. elim (Bool-cases bad) [
    | inl h ↦ absurd (ground arith)
    | inr h ↦
        let s = (p h).law w v (rw h at e) in
        record {
          written = s.written;
          sent = s.sent;
          size = s.size;
          enough = s.enough;
          within = s.within;
          reads = s.reads;
        }
  ];
}

module _ {A : Type 0} where
  change :
      {l : Limits} {f : Write} {rd rd' : Read A} {a : A} {n m : ℕ}
      → m ≤ n
      → ((r : ℕ) (rest bs : List ℕ)
          → n ≤ length bs
          → rd' (record { remaining = length bs + r; input = bs ++ rest })
            ≡ rd (record { remaining = length bs + r; input = bs ++ rest }))
      → Law l f rd a n
      → Law l f rd' a m
  change h q p = record {
    law = λ w v e.
        let s = p.law w v e in
        record {
          written = s.written;
          sent = s.sent;
          size = s.size;
          enough = omega (arith, s.enough);
          within = s.within;
          reads = λ r rest. q r rest s.written s.enough ∙ s.reads r rest;
        };
  }

  pub weaken :
      {l : Limits} {f : Write} {rd : Read A} {a : A} {n m : ℕ}
      → m ≤ n
      → Law l f rd a n
      → Law l f rd a m
  weaken h p = change h (λ r rest bs l. refl) p

  -- A test that passes.
  pub pass :
      {l : Limits} {f : Write} {rd : Read A} {a : A} {n : ℕ} {bad : Bool} (x : WireError)
      → bad ≡ false
      → Law l f rd a n
      → Law l f (throw_if bad x >> rd) a n
  unfolding ◌>>◌
  pass x h p = change (omega arith) (λ r rest bs l. rw h) p

  -- The payload holds as many bytes as were announced.
  pub announced :
      {l : Limits} {f : Write} {a : A} {n : ℕ} (k : ℕ → Read A) (limit c : ℕ)
      → c ≤ limit
      → c ≤ n
      → Law l f (k c) a n
      → Law l f (check_length limit c >>= k) a n
  unfolding check_length ◌>>=◌
  announced k limit c h i p = change (omega arith) (λ r rest bs l. ground arith) p

  pub counted :
      {l : Limits} {f : Write} {a : A} {n : ℕ} (k : ℕ → Read A) (limit c : ℕ)
      → c ≤ limit
      → c * 16 ≤ n
      → Law l f (k c) a n
      → Law l f (check_count limit c >>= k) a n
  unfolding check_count ◌>>=◌
  counted k limit c h i p = change (omega arith) (λ r rest bs l. ground arith) p

-- Reads that stand in a group of their own.
pub regroup :
    {A B C : Type 0} {l : Limits} {f : Write} {b : C} {n : ℕ} (rd : Read A) (k : A → Read B)
    (h : B → Read C)
    → Law l f (rd >>= (λ a. k a >>= h)) b n
    → Law l f ((rd >>= k) >>= h) b n
unfolding ◌>>=◌
regroup rd k h p =
    change (omega arith)
      (λ r rest bs l.
        elim (Outcome-cases (rd (record { remaining = length bs + r; input = bs ++ rest }))) [
          | inl (a, e) ↦ rw e
          | inr (x, e) ↦ rw e
        ])
      p

pub nothing : {A : Type 0} {l : Limits} (a : A) → Law l write_nothing (give a) a 0
unfolding write_nothing give
nothing a = record {
  law = λ w v e. record {
    written = [];
    sent = ground (arith, append-nil w.sent);
    size = ground arith;
    enough = omega arith;
    within = λ h. ground arith;
    reads = λ r rest. rw add.zero;
  };
}

-- A write that looks at the size that is reached.
pub at_size :
    {A : Type 0} {l : Limits} {f : ℕ → Write} {rd : Read A} {a : A} {n : ℕ}
    → ((size : ℕ) → Law l (f size) rd a n)
    → Law l (λ w. f w.size w) rd a n
at_size p = record {
  law = λ w v e.
      let s = (p w.size).law w v e in
      record {
        written = s.written;
        sent = s.sent;
        size = s.size;
        enough = s.enough;
        within = s.within;
        reads = s.reads;
      };
}
