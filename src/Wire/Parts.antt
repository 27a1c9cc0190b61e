-- ===== src/Wire/Parts.antt =====
-- Each part of a message is read as it was written.
use det_sim.Base.{
  take-length, drop-length, ℕ, ◌+◌, ◌*◌, ◌^◌, ◌≤◌, ◌<◌, ◌≡◌, refl, subst, Bool, true, false, List,
  [], ◌∷◌, ◌++◌, length, length-append, arith, ok,
}
use det_sim.Wire.{Limits, Blob}
use det_sim.Wire.Bytes.{little, length-little, number-little}
use det_sim.Wire.Encode.{
  Write, ◌then_write◌, write_bytes, write_scalar, write_text, write_blob, write_blobs,
  write_counted, byte_of_bool,
}
use det_sim.Wire.Decode.{
  Read, ◌>>=◌, ◌>>◌, give, read_bytes, read_scalar, read_boolean, read_length, read_text, read_blob,
  read_blobs,
}
use det_sim.Wire.Law.{Law, seq, last, refuse, weaken, announced, regroup, nothing, at_size}

read_bytes_lem :
    (bs rest : List ℕ) (r : ℕ)
    → read_bytes (length bs) (record { remaining = length bs + r; input = bs ++ rest })
      ≡ ok (bs, record { remaining = r; input = rest })
unfolding read_bytes
read_bytes_lem bs rest r =
    ground (arith, length-append bs rest, take-length bs rest, drop-length bs rest)

abbrev pub IsWord : ℕ → Type 0
IsWord n = n < 18446744073709551616

-- The keys of objects are words.
abbrev pub Keyed : List Blob → Type 0
Keyed [] = Unit {0}
Keyed (b ∷ bs) = IsWord b.key × Keyed bs

-- A limit is a uint64_t.
pub record AreWords (l : Limits) : Type 0 where
  pub frame : IsWord l.max_frame_bytes
  pub blob : IsWord l.max_blob_bytes
  pub metadata : IsWord l.max_metadata_bytes
  pub blobs : IsWord l.max_blobs
  pub text : IsWord l.max_text_bytes

module _ (l : Limits) where
  pub bytes-Law : (bs : List ℕ) → Law l (write_bytes l bs) (read_bytes (length bs)) bs (length bs)
  unfolding write_bytes
  bytes-Law bs = record {
    law = λ w v e. record {
      written = bs;
      sent = ground arith;
      size = ground arith;
      enough = omega arith;
      within = λ h. ground arith;
      reads = λ r rest. read_bytes_lem bs rest r;
    };
  }

  pub scalar-Law :
      (k value : ℕ) → value < 256 ^ k → Law l (write_scalar l k value) (read_scalar k) value k
  unfolding write_scalar read_scalar give
  scalar-Law k value h =
      last _
        (subst (λ n. Law l (write_bytes l (little k value)) (read_bytes n) (little k value) n)
          (length-little k value) (bytes-Law (little k value)))
        (λ r. rw (number-little k value h))

  pub boolean-Law : (b : Bool) → Law l (write_scalar l 1 (byte_of_bool b)) read_boolean b 1
  unfolding read_boolean give ◌>>◌
  boolean-Law true = last _ (scalar-Law 1 1 (omega arith)) (λ r. refl)
  boolean-Law false = last _ (scalar-Law 1 0 (omega arith)) (λ r. refl)

  pub length-Law :
      {B : Type 0} {g : Write} {b : B} {n : ℕ} (k : ℕ → Read B) (limit c : ℕ)
      → IsWord limit
      → c ≤ limit
      → c ≤ n
      → Law l g (k c) b n
      → Law l (write_scalar l 8 c then_write g) (read_length limit >>= k) b (8 + n)
  unfolding read_length
  length-Law k limit c h i j p =
      regroup _ _ k (seq _ (scalar-Law 8 c (omega arith)) (announced k limit c i j p))

  module _ (ws : AreWords l) where
    pub text-Law : (t : List ℕ) → Law l (write_text l t) (read_text l) t 8
    unfolding write_text read_text
    text-Law t = refuse _ (λ h. weaken (omega arith) (
        length-Law _ l.max_text_bytes (length t) ws.text (ground arith) (omega arith)
          (bytes-Law t)))

    blob-Law : (raw : ℕ) (b : Blob) → IsWord b.key → Law l (write_blob l raw b) (read_blob l) b 16
    unfolding write_blob read_blob give
    blob-Law raw b h = refuse _ (λ i. weaken (omega arith) (
        seq _ (scalar-Law 8 b.key (omega arith)) (
          length-Law _ l.max_blob_bytes (length b.content) ws.blob (ground arith) (omega arith)
            (last _ (bytes-Law b.content) (λ r. refl)))))

    blobs-Law :
        (raw : ℕ) (bs : List Blob)
        → Keyed bs
        → Law l (write_blobs l raw bs) (read_blobs l (length bs)) bs (length bs * 16)
    unfolding write_blobs read_blobs give
    blobs-Law raw [] h = nothing []
    blobs-Law raw (b ∷ bs) h = weaken (omega arith) (
        seq _ (blob-Law raw b h.0) (last _ (blobs-Law (raw + length b.content) bs h.1) (λ r. refl)))

    pub counted-Law :
        (bs : List Blob)
        → Keyed bs
        → Law l (write_counted l bs) (read_blobs l (length bs)) bs (length bs * 16)
    unfolding write_counted
    counted-Law bs h = at_size (λ n. blobs-Law n bs h)
