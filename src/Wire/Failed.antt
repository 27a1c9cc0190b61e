-- ===== src/Wire/Failed.antt =====
-- A channel that failed.
use det_sim.Base.{
  ◌≡◌, true, some, Option, Outcome, ok, throws, arith, ◌≢◌, take, drop, Outcome-cases, inl, inr,
}
use det_sim.Wire.{Limits, Message, WireError, unusable}
use det_sim.Wire.Frame.{Channel, send, receive, receive_parts}

-- Neither call can use the channel, or changes it.
pub record IsUnusable (l : Limits) (d : Channel) : Type 0 where
  pub receives : receive l d ≡ (d, throws unusable)
  pub sends : (m : Message) → send l d m ≡ (d, throws unusable)

failed-IsUnusable : (l : Limits) (d : Channel) → d.failed ≡ true → IsUnusable l d
unfolding receive send
failed-IsUnusable l d h = record { receives = ground arith; sends = λ m. ground arith }

-- After a receive that gives no message, by an exception or at the end of the stream, the channel cannot
-- be used: every further receive and send throws and leaves the channel as it is.
pub receive-IsUnusable :
    (l : Limits) (c d : Channel) (o : Outcome WireError (Option Message))
    → receive l c ≡ (d, o)
    → ((m : Message) → o ≢ ok (some m))
    → IsUnusable l d
unfolding receive
receive-IsUnusable l c d o e g =
    elim (Outcome-cases (receive_parts l (take 16 c.input) (drop 16 c.input))) [
      | inr (x, i) ↦ failed-IsUnusable l d (ground arith)
      | inl ((n, rest), i) ↦ failed-IsUnusable l d (ground (arith, g n))
    ]
