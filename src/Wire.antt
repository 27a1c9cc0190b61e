-- ===== src/Wire.antt =====
-- The protocol between the coordinator and its workers, src/core/search/protocol.{h,cpp}: the messages
-- and their limits. A socket is the bytes that its peer writes until it closes; a text is its bytes, and
-- an int that the protocol writes as a uint32_t is an integer.
pub mod Bytes
pub mod Encode
pub mod Decode
pub mod Frame
pub mod Law
pub mod Parts
pub mod RoundTrip
pub mod Received
pub mod Layout
pub mod Checked
pub mod Parsed
pub mod Sound
pub mod Failed
mod Tests
use det_sim.Base.{ℕ, Bool, List, ℤ}
use det_sim.Frontier.State.{Ticket, StateKey}

-- `Limits`, without the time-out.
pub record Limits : Type 0 where
  pub max_frame_bytes : ℕ
  pub max_blob_bytes : ℕ
  pub max_metadata_bytes : ℕ
  pub max_blobs : ℕ
  pub max_text_bytes : ℕ

pub record Blob : Type 0 where
  pub key : ℕ
  pub content : List ℕ

pub record Bundle : Type 0 where
  pub version : ℕ
  pub system_key : ℕ
  pub metadata : List ℕ
  pub blobs : List Blob

pub data TransitionAction : Type 0 where
  normal timeout : TransitionAction

pub data ResultCode : Type 0 where
  ckpt_no ckpt_yes ckpt_exit ckpt_stop ckpt_discard : ResultCode

pub record ActorAction : Type 0 where
  pub process : ℤ
  pub thread : ℤ
  pub action : TransitionAction

pub record Hello : Type 0 where
  pub model_identity : List ℕ
  pub compatibility : List ℕ

pub record Task : Type 0 where
  pub ticket : Ticket
  pub bundle : Bundle

pub record Edge : Type 0 where
  pub lease_id : ℕ
  pub source : StateKey
  pub target : StateKey
  pub actor : ActorAction
  pub choice : ℤ
  pub choice_count : ℕ
  pub property_violation : Bool
  pub result_code : ResultCode
  pub bundle : Bundle

pub data DoneKind : Type 0 where
  expanded terminal depth_cut model_budget violation : DoneKind

pub record Done : Type 0 where
  pub lease_id : ℕ
  pub source : StateKey
  pub kind : DoneKind
  pub emitted : ℕ

pub record Failure : Type 0 where
  pub lease_id : ℕ
  pub source : StateKey
  pub reason : List ℕ

-- The alternatives of the variant `Message`; `error` carries the struct `Error`.
pub data Message : Type 0 where
  hello : Hello → Message
  task : Task → Message
  edge : Edge → Message
  done : Done → Message
  error : Failure → Message
  shutdown : Message

pub data WireError : Type 0 where
  transfer_limit payload_mismatch truncated length_limit object_count invalid_boolean invalid_actor
        invalid_action invalid_choice invalid_choice_count invalid_result_code invalid_kind
        unknown_type version_mismatch trailing_bytes no_object_channel unusable :
      WireError
