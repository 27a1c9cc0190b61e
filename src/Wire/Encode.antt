-- ===== src/Wire/Encode.antt =====
-- `Writer` and `encode`: what a message is written as, and the limits that stop it. The writer has no
-- object channel, so blobs are written with their bytes. `sent` is what was appended to the output.
use det_sim.Base.{
  ℕ, suc, ◌+◌, ◌-◌, ◌%◌, Bool, true, false, ◌||◌, List, [], ◌∷◌, ◌++◌, ltb, if◌then◌else◌, length,
  ℤ, pos, negsuc, Outcome, ok, throw_if,
}
use det_sim.Base
use det_sim.Frontier.State.{Ticket}
use det_sim.Wire.{
  Limits, Blob, Bundle, TransitionAction, ResultCode, ActorAction, Edge, DoneKind, Message, hello,
  task, edge, done, error, shutdown, WireError, transfer_limit,
}
use det_sim.Wire.Bytes.{little}

pub record Writer : Type 0 where
  pub size : ℕ
  pub sent : List ℕ

abbrev pub Write : Type 0
Write = Writer → Outcome WireError Writer

-- The calls of a writer one after the other.
infixr 5 ◌then_write◌
unfoldable pub ◌then_write◌ : Write → Write → Write
◌then_write◌ f g w = Base.◌>>=◌ (f w) g

unfoldable pub write_nothing : Write
write_nothing w = ok w

-- `fail` unless the bound holds.
unfoldable pub refuse_if : Bool → WireError → Write → Write
refuse_if bad e f w = Base.◌>>◌ (throw_if bad e) (f w)

abbrev pub byte_of_bool : Bool → ℕ
byte_of_bool true = 1
byte_of_bool false = 0

abbrev pub action_code : TransitionAction → ℕ
action_code TransitionAction.normal = 0
action_code TransitionAction.timeout = 1

abbrev pub result_code_value : ResultCode → ℕ
result_code_value ResultCode.ckpt_no = 0
result_code_value ResultCode.ckpt_yes = 1
result_code_value ResultCode.ckpt_exit = 2
result_code_value ResultCode.ckpt_stop = 3
result_code_value ResultCode.ckpt_discard = 4

abbrev pub kind_value : DoneKind → ℕ
kind_value DoneKind.expanded = 0
kind_value DoneKind.terminal = 1
kind_value DoneKind.depth_cut = 2
kind_value DoneKind.model_budget = 3
kind_value DoneKind.violation = 4

-- `uint32_t(x)` of an int.
abbrev pub uint32_of : ℤ → ℕ
uint32_of (pos n) = n % 4294967296
uint32_of (negsuc n) = 4294967295 - n % 4294967296

module _ (l : Limits) where
  unfoldable pub write_bytes : List ℕ → Write
  write_bytes bs w =
      if ltb (l.max_frame_bytes - w.size) (length bs)
      then Outcome.throws transfer_limit
      else ok (record { size = w.size + length bs; sent = w.sent ++ bs })

  -- A word of `k` bytes.
  unfoldable pub write_scalar : ℕ → ℕ → Write
  write_scalar k value = write_bytes (little k value)

  unfoldable pub write_text : List ℕ → Write
  write_text t =
      refuse_if (ltb l.max_text_bytes (length t)) transfer_limit
        (write_scalar 8 (length t) then_write write_bytes t)

  unfoldable pub write_blob : ℕ → Blob → Write
  write_blob raw_total b =
      refuse_if
        (ltb l.max_blob_bytes (length b.content)
          || ltb (l.max_frame_bytes - raw_total) (length b.content))
        transfer_limit
        (write_scalar 8 b.key
          then_write write_scalar 8 (length b.content)
          then_write write_bytes b.content)

  -- The loop over the blobs, with the raw bytes counted so far.
  unfoldable pub write_blobs : ℕ → List Blob → Write
  write_blobs raw_total [] = write_nothing
  write_blobs raw_total (b ∷ bs) =
      write_blob raw_total b then_write write_blobs (raw_total + length b.content) bs

  -- The count of raw bytes starts at the size that is written before the blobs.
  unfoldable pub write_counted : List Blob → Write
  write_counted bs w = write_blobs w.size bs w

  unfoldable pub write_bundle : Bundle → Write
  write_bundle b =
      refuse_if (ltb l.max_metadata_bytes (length b.metadata) || ltb l.max_blobs (length b.blobs))
        transfer_limit
        (write_scalar 4 b.version
          then_write write_scalar 8 b.system_key
          then_write write_scalar 8 (length b.metadata)
          then_write write_bytes b.metadata
          then_write write_scalar 8 (length b.blobs)
          then_write write_counted b.blobs)

  unfoldable pub write_ticket : Ticket → Write
  write_ticket t =
      write_scalar 8 t.state
      then_write write_scalar 8 t.worker
      then_write write_scalar 8 t.lease_id
      then_write write_scalar 8 t.depth
      then_write write_scalar 1 (byte_of_bool t.may_expand)

  unfoldable pub write_actor : ActorAction → Write
  write_actor a =
      write_scalar 4 (uint32_of a.process)
      then_write write_scalar 4 (uint32_of a.thread)
      then_write write_scalar 1 (action_code a.action)

  unfoldable pub write_edge : Edge → Write
  write_edge e =
      write_scalar 8 e.lease_id
      then_write write_scalar 8 e.source
      then_write write_scalar 8 e.target
      then_write write_actor e.actor
      then_write write_scalar 4 (uint32_of e.choice)
      then_write write_scalar 4 e.choice_count
      then_write write_scalar 1 (byte_of_bool e.property_violation)
      then_write write_scalar 1 (result_code_value e.result_code)
      then_write write_bundle e.bundle

  unfoldable pub encode : Message → Write
  encode (hello h) = write_text h.model_identity then_write write_text h.compatibility
  encode (task t) = write_ticket t.ticket then_write write_bundle t.bundle
  encode (edge e) = write_edge e
  encode (done d) =
      write_scalar 8 d.lease_id
      then_write write_scalar 8 d.source
      then_write write_scalar 1 (kind_value d.kind)
      then_write write_scalar 8 d.emitted
  encode (error e) =
      write_scalar 8 e.lease_id then_write write_scalar 8 e.source then_write write_text e.reason
  encode shutdown = write_nothing
