-- ===== src/Wire/Layout.antt =====
-- The bytes of a message on the wire, as its fields in order: what the receiver accepts, said without the
-- reader or the writer.
use det_sim.Base.{ℕ, Bool, true, false, ℤ, pos, negsuc, List, [], ◌∷◌, ◌++◌, ◌-◌, length}
use det_sim.Frontier.State.{Ticket}
use det_sim.Wire.{
  Blob, Bundle, TransitionAction, ResultCode, ActorAction, Edge, DoneKind, Message, hello, task,
  edge, done, error, shutdown,
}
use det_sim.Wire.Bytes.{little}

abbrev pub flag_byte : Bool → ℕ
flag_byte false = 0
flag_byte true = 1

abbrev pub action_byte : TransitionAction → ℕ
action_byte TransitionAction.normal = 0
action_byte TransitionAction.timeout = 1

abbrev pub code_byte : ResultCode → ℕ
code_byte ResultCode.ckpt_no = 0
code_byte ResultCode.ckpt_yes = 1
code_byte ResultCode.ckpt_exit = 2
code_byte ResultCode.ckpt_stop = 3
code_byte ResultCode.ckpt_discard = 4

abbrev pub kind_byte : DoneKind → ℕ
kind_byte DoneKind.expanded = 0
kind_byte DoneKind.terminal = 1
kind_byte DoneKind.depth_cut = 2
kind_byte DoneKind.model_budget = 3
kind_byte DoneKind.violation = 4

-- The 32-bit pattern of an int.
abbrev pub int_word : ℤ → ℕ
int_word (pos n) = n
int_word (negsuc n) = 4294967295 - n

abbrev pub text_layout : List ℕ → List ℕ
text_layout t = little 8 (length t) ++ t

abbrev pub blobs_layout : List Blob → List ℕ
blobs_layout [] = []
blobs_layout (b ∷ bs) = (little 8 b.key ++ text_layout b.content) ++ blobs_layout bs

abbrev pub bundle_layout : Bundle → List ℕ
bundle_layout b =
    little 4 b.version
    ++ (little 8 b.system_key
        ++ (little 8 (length b.metadata)
            ++ (b.metadata ++ (little 8 (length b.blobs) ++ blobs_layout b.blobs))))

abbrev pub ticket_layout : Ticket → List ℕ
ticket_layout t =
    little 8 t.state
    ++ (little 8 t.worker
        ++ (little 8 t.lease_id ++ (little 8 t.depth ++ little 1 (flag_byte t.may_expand))))

abbrev pub actor_layout : ActorAction → List ℕ
actor_layout a =
    little 4 (int_word a.process)
    ++ (little 4 (int_word a.thread) ++ little 1 (action_byte a.action))

abbrev pub edge_layout : Edge → List ℕ
edge_layout e =
    little 8 e.lease_id
    ++ (little 8 e.source
        ++ (little 8 e.target
            ++ (actor_layout e.actor
                ++ (little 4 (int_word e.choice)
                    ++ (little 4 e.choice_count
                        ++ (little 1 (flag_byte e.property_violation)
                            ++ (little 1 (code_byte e.result_code) ++ bundle_layout e.bundle)))))))

abbrev pub layout : Message → List ℕ
layout (hello h) = text_layout h.model_identity ++ text_layout h.compatibility
layout (task t) = ticket_layout t.ticket ++ bundle_layout t.bundle
layout (edge e) = edge_layout e
layout (done d) =
    little 8 d.lease_id
    ++ (little 8 d.source ++ (little 1 (kind_byte d.kind) ++ little 8 d.emitted))
layout (error e) = little 8 e.lease_id ++ (little 8 e.source ++ text_layout e.reason)
layout shutdown = []

-- The type of a frame.
abbrev pub message_number : Message → ℕ
message_number (hello h) = 1
message_number (task t) = 2
message_number (edge e) = 3
message_number (done d) = 4
message_number (error e) = 5
message_number shutdown = 6
