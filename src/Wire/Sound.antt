-- ===== src/Wire/Sound.antt =====
-- Whatever bytes a peer sends, a message that is received fits, stays within the limits, and is what the
-- bytes of its frame say.
use det_sim.Base.{
  ℕ, ◌+◌, ◌≤◌, ◌≡◌, ap, ◌∙◌, sym, subst, some, List, [], ◌∷◌, ◌++◌, length, length-append, take,
  drop, length-drop, arith, ok, Outcome-cases, inl, inr, false,
}
use det_sim.Wire.{Limits, Message}
use det_sim.Wire.Bytes.{AllBytes, number}
use det_sim.Wire.Decode.{decode}
use det_sim.Wire.Frame.{Channel, receive, receive_parts, receive_payload}
use det_sim.Wire.RoundTrip.{Fits}
use det_sim.Wire.Layout.{layout, message_number}
use det_sim.Wire.Checked.{AllBytes-drop}
use det_sim.Wire.Parsed.{Allowed, Decoded, decode-Checks}

-- The size and the type that the header of the next frame announces.
abbrev announced_size : Channel → ℕ
announced_size c = number (drop 8 (take 16 c.input))

abbrev announced_type : Channel → ℕ
announced_type c = number (take 2 (drop 6 (take 16 c.input)))

AllBytes-append : (bs cs : List ℕ) → AllBytes (bs ++ cs) → AllBytes bs
AllBytes-append [] cs h = tt
AllBytes-append (b ∷ bs) cs h = (h.0, AllBytes-append bs cs h.1)

module _ (l : Limits) where
  -- A message `m` that was received of `c`, which is then `d`: its bytes are those behind the header, up
  -- to what `d` has left.
  pub record Received (c d : Channel) (m : Message) : Type 0 where
    pub fits : Fits m
    pub allowed : Allowed l m
    pub announced : announced_type c ≡ message_number m
    pub laid_out : drop 16 c.input ≡ layout m ++ d.input
    pub bytes : AllBytes (layout m)
    pub size : announced_size c ≡ length (layout m)
    pub bounded : length (layout m) ≤ l.max_frame_bytes
    pub framed : 16 + announced_size c + length d.input ≡ length c.input
    pub usable : d.failed ≡ false

  abbrev Parsed : ℕ → ℕ → List ℕ → List ℕ → Message → Type 0
  Parsed type size input rest m =
      Fits m
      × Allowed l m
      × (type ≡ message_number m)
      × (input ≡ layout m ++ rest)
      × (size ≤ l.max_frame_bytes)
      × (size + length rest ≡ length input)

  payload-Parsed :
      (version type size : ℕ) (input rest : List ℕ) (m : Message)
      → AllBytes input
      → receive_payload l version type size input ≡ ok (m, rest)
      → Parsed type size input rest m
  unfolding receive_payload
  payload-Parsed version type size input rest m h e =
      elim (Outcome-cases (decode l type (record { remaining = size; input = input }))) [
        | inr (x, i) ↦ absurd (ground arith)
        | inl ((n, s), i) ↦
            let g = (decode-Checks l type).check _ s n h i in
            let same : n ≡ m = ground arith in
            let left : s.input ≡ rest = ground arith in
            let found = subst (λ x. Decoded l type x g.written) same g.holds in
            (
              found.0,
              found.1,
              sym found.2,
              g.split ∙ (ap (λ x. x ++ s.input) found.3 ∙ ap (λ x. layout m ++ x) left),
              ground arith,
              ground (arith, g.taken),
            )
      ]

  parts-Parsed :
      (h input rest : List ℕ) (m : Message)
      → AllBytes input
      → receive_parts l h input ≡ ok (m, rest)
      → Parsed (number (take 2 (drop 6 h))) (number (drop 8 h)) input rest m
  unfolding receive_parts
  parts-Parsed h input rest m b e =
      payload-Parsed (number (take 2 (drop 4 h))) (number (take 2 (drop 6 h))) (number (drop 8 h))
        input rest m b (ground arith)

  -- Whatever bytes a peer sent, a message that is received is the one of the announced type whose layout
  -- is the bytes behind the header, and these are as many as announced, bytes, and no more than the
  -- frame limit. So a flag is 0 or 1 and an action, a result code and a kind are bytes that name
  -- one. Its words fit their types, an actor and a choice are allowed, and texts, metadata, objects and
  -- object counts are within the limits; the channel can be used again.
  pub receive-Received :
      (c d : Channel) (m : Message)
      → AllBytes c.input
      → receive l c ≡ (d, ok (some m))
      → Received c d m
  unfolding receive
  receive-Received c d m h e =
      elim (Outcome-cases (receive_parts l (take 16 c.input) (drop 16 c.input))) [
        | inr (x, i) ↦ absurd (ground arith)
        | inl ((n, rest), i) ↦
            let same : n ≡ m = ground arith in
            let left : rest ≡ d.input = ground arith in
            let behind = AllBytes-drop 16 c.input h in
            let g =
              subst (λ x. Parsed (announced_type c) (announced_size c) (drop 16 c.input) rest x)
                same (parts-Parsed (take 16 c.input) (drop 16 c.input) rest n behind i) in
            let laid_out = g.3 ∙ ap (λ x. layout m ++ x) left in
            let long : 16 ≤ length c.input = ground arith in
            let sized : announced_size c ≡ length (layout m) =
              omega (arith, g.5, ap length g.3, length-append (layout m) rest) in
            record {
              fits = g.0;
              allowed = g.1;
              announced = g.2;
              laid_out = laid_out;
              bytes = AllBytes-append (layout m) rest (subst AllBytes g.3 behind);
              size = sized;
              bounded = omega (arith, g.4, sized);
              framed = omega (arith, length-drop 16 c.input, g.5, ap length left, long);
              usable = ground arith;
            }
      ]
