-- ===== src/Wire/Frame.antt =====
-- `Channel::send` and `Channel::receive` with no object channel: a header of 16 bytes and a payload. The
-- time limit is not modelled. A channel that failed is not read again, so what it has buffered is kept.
use det_sim.Base.{
  ℕ, ◌+◌, ◌*◌, ◌/◌, ◌%◌, Bool, true, false, ◌&&◌, ◌||◌, not, Option, none, some, List, [], ◌∷◌,
  ◌++◌, ltb, ◌==◌, if◌then◌else◌, length, take, drop, Outcome, ok, throws,
}
use det_sim.Base
use det_sim.Wire.{
  Limits, Message, hello, task, edge, done, error, shutdown, WireError, transfer_limit,
  trailing_bytes, unknown_type, version_mismatch, no_object_channel, truncated, unusable,
}
use det_sim.Wire.Bytes.{little, number}
use det_sim.Wire.Encode.{Writer, encode}
use det_sim.Wire.Decode.{decode}

pub record Channel : Type 0 where
  pub failed : Bool
  pub input : List ℕ

abbrev pub magic : ℕ
magic = 1347900228

-- `message.index() + 1`.
abbrev pub type_code : Message → ℕ
type_code (hello h) = 1
type_code (task t) = 2
type_code (edge e) = 3
type_code (done d) = 4
type_code (error e) = 5
type_code shutdown = 6

unfoldable pub header : ℕ → ℕ → List ℕ
header type size = little 4 magic ++ (little 2 1 ++ (little 2 type ++ little 8 size))

abbrev pub start : Writer
start = record { size = 0; sent = [] }

module _ (l : Limits) where
  -- The message is measured, and then written behind its header.
  unfoldable pub frame : Message → Outcome WireError (List ℕ)
  frame m = Base.◌>>=◌ (encode l m start) (λ measure.
      Base.◌>>=◌ (encode l m start) (λ out. ok (header (type_code m) measure.size ++ out.sent)))

  abbrev pub after_send :
      Channel → Outcome WireError (List ℕ) → Channel × Outcome WireError (List ℕ)
  after_send c (ok bytes) = (c, ok bytes)
  after_send c (throws e) = (record c { failed = true }, throws e)

  -- The channel, and the bytes that its peer gets.
  unfoldable pub send : Channel → Message → Channel × Outcome WireError (List ℕ)
  send c m = if c.failed then (c, throws unusable) else after_send c (frame m)

  -- The payload of a frame of a version, type and size, and what follows it.
  unfoldable pub receive_payload : ℕ → ℕ → ℕ → List ℕ → Outcome WireError (Message × List ℕ)
  receive_payload version type size input =
      if ltb type 1 || ltb 6 type
      then throws unknown_type
      else if ltb l.max_frame_bytes size
      then throws transfer_limit
      else if version == 2
      then throws no_object_channel
      else Base.◌>>=◌ (decode l type (record { remaining = size; input = input }))
          (λ s. if s.1.remaining == 0 then ok (s.0, s.1.input) else throws trailing_bytes)

  -- The parts of the header, the magic number, version, type and size, before the payload.
  unfoldable pub receive_parts : List ℕ → List ℕ → Outcome WireError (Message × List ℕ)
  receive_parts h input =
      let version = number (take 2 (drop 4 h)) in
      if not (number (take 4 h) == magic) || not (version == 1 || version == 2)
      then throws version_mismatch
      else receive_payload version (number (take 2 (drop 6 h))) (number (drop 8 h)) input

  abbrev pub after_receive :
      Channel → Outcome WireError (Message × List ℕ) → Channel × Outcome WireError (Option Message)
  after_receive c (ok (m, rest)) = (record c { input = rest }, ok (some m))
  after_receive c (throws e) = (record c { failed = true }, throws e)

  -- `none` is the end of the stream between two frames, after which the channel is not used again.
  unfoldable pub receive : Channel → Channel × Outcome WireError (Option Message)
  receive c =
      if c.failed
      then (c, throws unusable)
      else if length c.input == 0
      then (record c { failed = true }, ok none)
      else if ltb (length c.input) 16
      then (record c { failed = true }, throws truncated)
      else after_receive c (receive_parts (take 16 c.input) (drop 16 c.input))
