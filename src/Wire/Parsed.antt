-- ===== src/Wire/Parsed.antt =====
-- What each reader lets through, whatever bytes a peer sends.
use mathlib.Core.List.{append-nil}
use det_sim.Base.{
  ◌&&◌, not, ℕ, zero, suc, ◌≤◌, ◌≡◌, refl, ap, ◌∙◌, List, [], ◌∷◌, ◌++◌, length, arith, Bool-cases,
  inl, inr, ltb, ◌==◌, false,
}
use det_sim.Wire.{
  Limits, Blob, Bundle, ActorAction, Message, hello, task, edge, done, error, shutdown,
}
use det_sim.Wire.Bytes.{little}
use det_sim.Wire.Decode.{
  read_text, read_blob, read_blobs, read_bundle, read_ticket, read_actor, read_choice,
  read_choice_count, read_result_code, read_kind, read_edge, decode, int32_max, choice_of,
  action_of, result_code_of, kind_of,
}
use det_sim.Wire.Parts.{IsWord, Keyed}
use det_sim.Wire.RoundTrip.{BundleFits, TicketFits, EdgeFits, Fits, IsIndex, IsChoice}
use det_sim.Wire.Layout.{
  text_layout, blobs_layout, bundle_layout, ticket_layout, actor_layout, edge_layout, layout,
  message_number, action_byte, code_byte, kind_byte, int_word,
}
use det_sim.Wire.Checked.{
  Checks, bind, guard, never, imply, gives, bytes-Checks, scalar-Checks, word-Checks,
  boolean-Checks, check_count-Checks, length-Checks,
}

module _ (l : Limits) where
  abbrev BlobsAllowed : List Blob → Type 0
  BlobsAllowed [] = Unit {0}
  BlobsAllowed (b ∷ bs) = (length b.content ≤ l.max_blob_bytes) × BlobsAllowed bs

  pub record BundleAllowed (b : Bundle) : Type 0 where
    pub metadata : length b.metadata ≤ l.max_metadata_bytes
    pub count : length b.blobs ≤ l.max_blobs
    pub blobs : BlobsAllowed b.blobs

  abbrev pub Allowed : Message → Type 0
  Allowed (hello h) =
      (length h.model_identity ≤ l.max_text_bytes) × (length h.compatibility ≤ l.max_text_bytes)
  Allowed (task t) = BundleAllowed t.bundle
  Allowed (edge e) = BundleAllowed e.bundle
  Allowed (done d) = Unit {0}
  Allowed (error e) = length e.reason ≤ l.max_text_bytes
  Allowed shutdown = Unit {0}

  text-Checks : Checks (read_text l) (λ t w. (length t ≤ l.max_text_bytes) × (w ≡ text_layout t))
  unfolding read_text
  text-Checks =
      bind _ (length-Checks l.max_text_bytes)
        (λ n w h. imply (bytes-Checks n) (λ bs v i. (omega arith, rw (h.1, i.2, i.1) refl)))

  abbrev GoodBlob : Blob → List ℕ → Type 0
  GoodBlob b w =
      IsWord b.key
      × (length b.content ≤ l.max_blob_bytes)
      × (w ≡ little 8 b.key ++ text_layout b.content)

  blob-Checks : Checks (read_blob l) GoodBlob
  unfolding read_blob
  blob-Checks = bind _ word-Checks (λ key w f. bind _ (length-Checks l.max_blob_bytes) (λ n v h.
      bind _ (bytes-Checks n)
        (λ content u i. gives _ (f.0, omega arith, rw (f.1, h.1, i.2, append-nil, i.1) refl))))

  abbrev GoodBlobs : ℕ → List Blob → List ℕ → Type 0
  GoodBlobs n bs w = Keyed bs × BlobsAllowed bs × (length bs ≡ n) × (w ≡ blobs_layout bs)

  blobs-Checks : (n : ℕ) → Checks (read_blobs l n) (GoodBlobs n)
  unfolding read_blobs
  blobs-Checks zero = gives _ (tt, tt, refl, refl)
  blobs-Checks (suc n) = bind _ blob-Checks (λ b w f.
      bind _ (blobs-Checks n)
        (λ bs v g. gives _ ((f.0, g.0), (f.1, g.1), ap suc g.2, rw (f.2, g.3, append-nil) refl)))

  abbrev GoodBundle : Bundle → List ℕ → Type 0
  GoodBundle b w = BundleFits b × BundleAllowed b × (w ≡ bundle_layout b)

  bundle-Checks : Checks (read_bundle l) GoodBundle
  unfolding read_bundle
  bundle-Checks = bind _ (scalar-Checks 4) (λ version w1 v. bind _ word-Checks (λ key w2 k.
      bind _ (length-Checks l.max_metadata_bytes) (λ n w3 m.
        bind _ (bytes-Checks n) (λ metadata w4 d. bind _ word-Checks (λ declared w5 c.
          bind _ (check_count-Checks l.max_blobs declared) (λ count w6 i.
            bind _ (blobs-Checks count) (λ blobs w7 b. gives _ (
              record { version = omega arith; system_key = k.0; keyed = b.0 },
              record { metadata = omega arith; count = omega arith; blobs = b.1 },
              rw (v.1, k.1, m.1, d.2, c.1, i.2, b.3, append-nil, d.1, b.2, i.1) refl,
            ))))))))

  ticket-Checks : Checks read_ticket (λ t w. TicketFits t × (w ≡ ticket_layout t))
  unfolding read_ticket
  ticket-Checks = bind _ word-Checks (λ state w1 s. bind _ word-Checks (λ worker w2 w.
      bind _ word-Checks (λ lease w3 i. bind _ word-Checks (λ depth w4 d.
        bind _ boolean-Checks (λ may w5 m. gives _ (
          record { state = s.0; worker = w.0; lease_id = i.0; depth = d.0 },
          rw (s.1, w.1, i.1, d.1, m, append-nil) refl,
        ))))))

  abbrev GoodActor : ActorAction → List ℕ → Type 0
  GoodActor a w = IsIndex a.process × IsIndex a.thread × (w ≡ actor_layout a)

  action : (n : ℕ) → ltb 1 n ≡ false → n ≡ action_byte (action_of n)
  action zero h = refl
  action (suc zero) h = refl
  action (suc (suc n)) h = ground arith

  actor-Checks : Checks read_actor GoodActor
  unfolding read_actor
  actor-Checks = bind _ (scalar-Checks 4) (λ process w1 p. bind _ (scalar-Checks 4) (λ thread w2 t.
      guard _ (λ b. bind _ (scalar-Checks 1) (λ n w3 a. guard _ (λ c.
        gives _ (ground arith, ground arith, rw (p.1, t.1, a.1, append-nil, ← action n c) refl))))))

  IsChoice-Checks : Checks read_choice (λ c w. IsChoice c × (w ≡ little 4 (int_word c)))
  unfolding read_choice
  IsChoice-Checks = bind _ (scalar-Checks 4) (λ c w h.
      guard _ (λ b. gives _ (index c b, append-nil w ∙ (h.1 ∙ ap (little 4) (pattern_of c b)))))
    where
      index :
          (c : ℕ)
          → ltb int32_max c && not (c == 4294967295) && not (c == 4294967294) ≡ false
          → IsChoice (choice_of c)
      index c b = ground arith

      pattern_of :
          (c : ℕ)
          → ltb int32_max c && not (c == 4294967295) && not (c == 4294967294) ≡ false
          → c ≡ int_word (choice_of c)
      pattern_of c b = elim (Bool-cases (c == 4294967295)) [
        | inl e ↦ rw e (ground arith)
        | inr e ↦ elim (Bool-cases (c == 4294967294)) [
          | inl f ↦ rw (e, f) (ground arith)
          | inr f ↦ rw (e, f) refl
        ]
      ]

  count-Checks : Checks read_choice_count (λ n w. (n ≤ int32_max) × (w ≡ little 4 n))
  unfolding read_choice_count
  count-Checks =
      bind _ (scalar-Checks 4) (λ c w h. guard _ (λ b. gives _ (ground arith, append-nil w ∙ h.1)))

  code-Checks : Checks read_result_code (λ c w. w ≡ little 1 (code_byte c))
  unfolding read_result_code
  code-Checks =
      bind _ (scalar-Checks 1)
        (λ c w h. guard _ (λ b. gives _ (append-nil w ∙ (h.1 ∙ ap (little 1) (code c b)))))
    where
      code : (n : ℕ) → ltb 4 n ≡ false → n ≡ code_byte (result_code_of n)
      code zero h = refl
      code (suc zero) h = refl
      code (suc (suc zero)) h = refl
      code (suc (suc (suc zero))) h = refl
      code (suc (suc (suc (suc n)))) h = ground arith

  kind-Checks : Checks read_kind (λ k w. w ≡ little 1 (kind_byte k))
  unfolding read_kind
  kind-Checks =
      bind _ (scalar-Checks 1)
        (λ c w h. guard _ (λ b. gives _ (append-nil w ∙ (h.1 ∙ ap (little 1) (kind c b)))))
    where
      kind : (n : ℕ) → ltb 4 n ≡ false → n ≡ kind_byte (kind_of n)
      kind zero h = refl
      kind (suc zero) h = refl
      kind (suc (suc zero)) h = refl
      kind (suc (suc (suc zero))) h = refl
      kind (suc (suc (suc (suc n)))) h = ground arith

  edge-Checks :
      Checks (read_edge l) (λ e w. EdgeFits e × BundleAllowed e.bundle × (w ≡ edge_layout e))
  unfolding read_edge
  edge-Checks = bind _ word-Checks (λ lease w1 i. bind _ word-Checks (λ source w2 s.
      bind _ word-Checks (λ target w3 t. bind _ actor-Checks (λ actor w4 a.
        bind _ IsChoice-Checks (λ choice w5 c. bind _ count-Checks (λ count w6 n.
          bind _ boolean-Checks (λ violation w7 v. bind _ code-Checks (λ code w8 r.
            bind _ bundle-Checks (λ bundle w9 b. gives _ (
              record {
                lease_id = i.0;
                source = s.0;
                target = t.0;
                process = a.0;
                thread = a.1;
                choice = c.0;
                choice_count = n.0;
                bundle = b.0;
              },
              b.1,
              rw (i.1, s.1, t.1, a.2, c.1, n.1, v, r, b.2, append-nil) refl,
            ))))))))))

  -- What a decoded message is: it fits, is within the limits, has the type of the frame, and its bytes
  -- are those that were taken.
  abbrev pub Decoded : ℕ → Message → List ℕ → Type 0
  Decoded type m w = Fits m × Allowed m × (message_number m ≡ type) × (w ≡ layout m)

  pub decode-Checks : (type : ℕ) → Checks (decode l type) (Decoded type)
  unfolding decode
  decode-Checks zero = never _
  decode-Checks (suc zero) = bind _ text-Checks (λ model w1 m.
      bind _ text-Checks
        (λ other w2 o. gives _ (tt, (m.0, o.0), refl, rw (m.1, o.1, append-nil) refl)))
  decode-Checks (suc (suc zero)) = bind _ ticket-Checks (λ ticket w1 t.
      bind _ bundle-Checks
        (λ b w2 g. gives _ ((t.0, g.0), g.1, refl, rw (t.1, g.2, append-nil) refl)))
  decode-Checks (suc (suc (suc zero))) =
      bind _ edge-Checks (λ e w g. gives _ (g.0, g.1, refl, append-nil w ∙ g.2))
  decode-Checks (suc (suc (suc (suc zero)))) = bind _ word-Checks (λ lease w1 i.
      bind _ word-Checks (λ source w2 s. bind _ kind-Checks (λ kind w3 k.
        bind _ word-Checks
          (λ n w4 e. gives _ ((i.0, s.0, e.0), tt, refl, rw (i.1, s.1, k, e.1, append-nil) refl)))))
  decode-Checks (suc (suc (suc (suc (suc zero))))) = bind _ word-Checks (λ lease w1 i.
      bind _ word-Checks (λ source w2 s.
        bind _ text-Checks
          (λ reason w3 t. gives _ ((i.0, s.0), t.0, refl, rw (i.1, s.1, t.1, append-nil) refl))))
  decode-Checks (suc (suc (suc (suc (suc (suc zero)))))) = gives _ (tt, tt, refl, refl)
  decode-Checks (suc (suc (suc (suc (suc (suc (suc n))))))) = never _
