-- ===== src/Wire/Tests.antt =====
-- A message of each kind over a channel.
use det_sim.Base.{
  ℕ, ◌≡◌, refl, true, false, some, List, [], ◌∷◌, ◌++◌, ok, pos, negsuc, arith, throws,
}
use det_sim.Wire.{Limits, TransitionAction, ResultCode, Edge, edge, truncated}
use det_sim.Wire.Bytes.{little}
use det_sim.Wire.Encode.{
  encode, ◌then_write◌, write_nothing, refuse_if, write_bytes, write_scalar, write_blob,
  write_blobs, write_counted, write_bundle, write_actor, write_edge,
}
use det_sim.Wire.Frame.{Channel, header, frame, send, receive}
use det_sim.Wire.Parts.{AreWords}
use det_sim.Wire.RoundTrip.{Fits}
use det_sim.Wire.Received.{receive-send}
use det_sim.Wire.Failed.{IsUnusable, receive-IsUnusable}
use det_sim.Wire.Sound.{Received, receive-Received}

abbrev small : Limits
small = record {
  max_frame_bytes = 4096;
  max_blob_bytes = 1024;
  max_metadata_bytes = 512;
  max_blobs = 8;
  max_text_bytes = 64;
}

abbrev small_words : AreWords small
small_words = record {
  frame = omega arith;
  blob = omega arith;
  metadata = omega arith;
  blobs = omega arith;
  text = omega arith;
}

abbrev an_edge : Edge
an_edge = record {
  lease_id = 7;
  source = 3;
  target = 900;
  actor = record { process = pos 1; thread = pos 2; action = TransitionAction.timeout };
  choice = negsuc 1;
  choice_count = 0;
  property_violation = false;
  result_code = ResultCode.ckpt_yes;
  bundle = record {
    version = 1;
    system_key = 12;
    metadata = 5 ∷ 6 ∷ [];
    blobs = record { key = 77; content = 1 ∷ 2 ∷ 3 ∷ [] } ∷ [];
  };
}

abbrev opened : Channel
opened = record { failed = false; input = [] }

abbrev edge_bytes : List ℕ
edge_bytes =
    68 ∷ 83 ∷ 87 ∷ 80 ∷ 1 ∷ 0 ∷ 3 ∷ 0 ∷ 92 ∷ 0 ∷ 0 ∷ 0 ∷ 0 ∷ 0 ∷ 0 ∷ 0 ∷ 7 ∷ 0 ∷ 0 ∷ 0 ∷ 0 ∷ 0 ∷ 0
    ∷ 0 ∷ 3 ∷ 0 ∷ 0 ∷ 0 ∷ 0 ∷ 0 ∷ 0 ∷ 0 ∷ 132 ∷ 3 ∷ 0 ∷ 0 ∷ 0 ∷ 0 ∷ 0 ∷ 0 ∷ 1 ∷ 0 ∷ 0 ∷ 0 ∷ 2 ∷ 0
    ∷ 0 ∷ 0 ∷ 1 ∷ 254 ∷ 255 ∷ 255 ∷ 255 ∷ 0 ∷ 0 ∷ 0 ∷ 0 ∷ 0 ∷ 1 ∷ 1 ∷ 0 ∷ 0 ∷ 0 ∷ 12 ∷ 0 ∷ 0 ∷ 0 ∷ 0
    ∷ 0 ∷ 0 ∷ 0 ∷ 2 ∷ 0 ∷ 0 ∷ 0 ∷ 0 ∷ 0 ∷ 0 ∷ 0 ∷ 5 ∷ 6 ∷ 1 ∷ 0 ∷ 0 ∷ 0 ∷ 0 ∷ 0 ∷ 0 ∷ 0 ∷ 77 ∷ 0 ∷ 0
    ∷ 0 ∷ 0 ∷ 0 ∷ 0 ∷ 0 ∷ 3 ∷ 0 ∷ 0 ∷ 0 ∷ 0 ∷ 0 ∷ 0 ∷ 0 ∷ 1 ∷ 2 ∷ 3 ∷ []

-- The peer, with a byte of the next frame behind.
abbrev peer : Channel
peer = record { failed = false; input = edge_bytes ++ 68 ∷ [] }

edge_frame : (send small opened (edge an_edge)).1 ≡ ok edge_bytes
unfolding send frame header encode write_nothing write_bytes write_scalar write_blob write_blobs
    write_counted write_bundle write_actor write_edge refuse_if ◌then_write◌ little
edge_frame = refl

an_edge-Fits : Fits (edge an_edge)
an_edge-Fits = record {
  lease_id = omega arith;
  source = omega arith;
  target = omega arith;
  process = omega arith;
  thread = omega arith;
  choice = omega arith;
  choice_count = omega arith;
  bundle = record { version = omega arith; system_key = omega arith; keyed = omega arith };
}

receive-send_example :
    receive small peer ≡ (record { failed = false; input = 68 ∷ [] }, ok (some (edge an_edge)))
receive-send_example =
    receive-send small opened peer (edge an_edge) edge_bytes (68 ∷ []) small_words an_edge-Fits refl
      edge_frame refl refl

receive-Received_example :
    Received small peer (record { failed = false; input = 68 ∷ [] }) (edge an_edge)
receive-Received_example =
    receive-Received small peer (record { failed = false; input = 68 ∷ [] }) (edge an_edge)
      (omega arith) receive-send_example

-- A header that is cut off.
abbrev cut_off : Channel
cut_off = record { failed = false; input = 68 ∷ 83 ∷ [] }

receive-IsUnusable_example : IsUnusable small (record cut_off { failed = true })
unfolding receive
receive-IsUnusable_example =
    receive-IsUnusable small cut_off (record cut_off { failed = true }) (throws truncated) refl
      (λ m e. cc)
