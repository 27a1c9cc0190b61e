-- ===== src/Wire/Received.antt =====
-- A frame is received as it was sent.
use mathlib.Core.List.{append_assoc}
use det_sim.Base.{
  take-length, drop-length, ℕ, ◌+◌, ◌^◌, ◌<◌, ◌≤◌, ◌≡◌, refl, subst, false, some, List, ◌++◌,
  length, length-append, take, drop, arith, ok, Outcome-cases, inl, inr, ◌∙◌, ap,
}
use det_sim.Wire.{Limits, Message, hello, task, edge, done, error, shutdown}
use det_sim.Wire.Bytes.{little, number, number-little}
use det_sim.Wire.Encode.{Writer, encode}
use det_sim.Wire.Frame.{
  Channel, magic, type_code, header, start, frame, send, receive_payload, receive_parts, receive,
  after_receive,
}
use det_sim.Wire.Parts.{AreWords}
use det_sim.Wire.RoundTrip.{Fits, encode-Law}

-- The parts of a header.
module _ (type size : ℕ) where
  length-header : length (header type size) ≡ 16
  unfolding header little
  length-header = refl

  header-magic : number (take 4 (header type size)) ≡ magic
  unfolding header little
  header-magic = number-little 4 magic (omega arith)

  header-version : number (take 2 (drop 4 (header type size))) ≡ 1
  unfolding header little
  header-version = number-little 2 1 (omega arith)

  header-type : type < 256 ^ 2 → number (take 2 (drop 6 (header type size))) ≡ type
  unfolding header little
  header-type h = number-little 2 type h

  header-size : size < 256 ^ 8 → number (drop 8 (header type size)) ≡ size
  unfolding header little
  header-size h = number-little 8 size h

type_code-bounds : (m : Message) → (1 ≤ type_code m) × (type_code m ≤ 6)
type_code-bounds (hello h) = omega arith
type_code-bounds (task t) = omega arith
type_code-bounds (edge e) = omega arith
type_code-bounds (done d) = omega arith
type_code-bounds (error e) = omega arith
type_code-bounds shutdown = omega arith

receive_parts-header :
    (l : Limits) (type size : ℕ) (input : List ℕ)
    → type < 256 ^ 2
    → size < 256 ^ 8
    → receive_parts l (header type size) input ≡ receive_payload l 1 type size input
unfolding receive_parts
receive_parts-header l type size input h i = rw (
  header-magic type size,
  header-version type size,
  header-type type size h,
  header-size type size i,
)

-- The payload of a message that fits is received, and what follows it is left.
receive_payload-written :
    (l : Limits) (m : Message) (w : Writer) (rest : List ℕ)
    → AreWords l
    → Fits m
    → encode l m start ≡ ok w
    → receive_payload l 1 (type_code m) w.size (w.sent ++ rest) ≡ ok (m, rest)
unfolding receive_payload
receive_payload-written l m w rest ws f e =
    let s = (encode-Law l ws m f).law start w e in
    ground (arith, s.reads 0 rest, s.size, s.sent, s.within (omega arith), type_code-bounds m)

receive-header :
    (l : Limits) (d : Channel) (type size : ℕ) (rest : List ℕ)
    → d.failed ≡ false
    → d.input ≡ header type size ++ rest
    → receive l d ≡ after_receive l d (receive_parts l (header type size) rest)
unfolding receive
receive-header l d type size rest df i =
    let front : take 16 d.input ≡ header type size = rw i (
      subst (λ n. take n (header type size ++ rest) ≡ header type size) (length-header type size)
        (take-length (header type size) rest)) in
    let back : drop 16 d.input ≡ rest = rw i (
      subst (λ n. drop n (header type size ++ rest) ≡ rest) (length-header type size)
        (drop-length (header type size) rest)) in
    let long : length d.input ≡ 16 + length rest =
      ap length i ∙ omega (arith, length-append (header type size) rest, length-header type size) in
    ground (arith, front, back, long)

send-frame :
    (l : Limits) (c : Channel) (m : Message) (w : Writer) (bytes : List ℕ)
    → (send l c m).1 ≡ ok bytes
    → encode l m start ≡ ok w
    → bytes ≡ header (type_code m) w.size ++ w.sent
unfolding send frame
send-frame l c m w bytes e h = ground arith

-- A message that is sent over a channel is what the peer receives, when its fields fit their types and
-- its process, thread and choice are not negative but for the choices -1 and -2: the peer's
-- channel has the bytes that were sent before anything else, and keeps what follows them.
pub receive-send :
    (l : Limits) (c d : Channel) (m : Message) (bytes rest : List ℕ)
    → AreWords l
    → Fits m
    → c.failed ≡ false
    → (send l c m).1 ≡ ok bytes
    → d.failed ≡ false
    → d.input ≡ bytes ++ rest
    → receive l d ≡ (record d { input = rest }, ok (some m))
unfolding send frame
receive-send l c d m bytes rest ws f cf e df i = elim (Outcome-cases (encode l m start)) [
  | inr (x, h) ↦ absurd (ground arith)
  | inl (w, h) ↦
      let split = send-frame l c m w bytes e h in
      let s = (encode-Law l ws m f).law start w h in
      let input : d.input ≡ header (type_code m) w.size ++ (w.sent ++ rest) =
        i ∙ (ap (λ x. x ++ rest) split ∙ append_assoc (header (type_code m) w.size) w.sent rest) in
      rw
        (
          receive-header l d (type_code m) w.size (w.sent ++ rest) df input,
          receive_parts-header l (type_code m) w.size (w.sent ++ rest)
              (omega (arith, type_code-bounds m)) (omega (arith, s.within (omega arith), ws.frame)),
          receive_payload-written l m w rest ws f h,
        )
        refl
]
