-- ===== src/Wire/Decode.antt =====
-- `Reader` and `decode`: how a message is read and what is refused.
use det_sim.Base.{
  ℕ, zero, suc, ◌+◌, ◌-◌, ◌/◌, Bool, true, false, ◌&&◌, ◌||◌, not, List, [], ◌∷◌, ◌++◌, ltb, ◌==◌,
  if◌then◌else◌, length, take, drop, ℤ, pos, negsuc, Outcome, ok, throws, throw_if,
}
use det_sim.Base
use det_sim.Frontier.State.{Ticket}
use det_sim.Wire.{
  Limits, Blob, Bundle, TransitionAction, ResultCode, ActorAction, Edge, DoneKind, Message, hello,
  task, edge, done, error, shutdown, WireError,
}
use det_sim.Wire.Bytes.{number}

-- What is left of the payload, and the bytes of the socket.
pub record Reader : Type 0 where
  pub remaining : ℕ
  pub input : List ℕ

abbrev pub Read : Type 0 → Type 0
Read A = Reader → Outcome WireError (A × Reader)

infixl 5 ◌>>=◌ ◌>>◌
unfoldable pub ◌>>=◌ : {A B : Type 0} → Read A → (A → Read B) → Read B
◌>>=◌ f k r = Base.◌>>=◌ (f r) (λ s. k s.0 s.1)

-- `fail` unless the test passes.
unfoldable pub ◌>>◌ : {B : Type 0} → Outcome WireError (Unit {0}) → Read B → Read B
◌>>◌ o f r = Base.◌>>◌ o (f r)

unfoldable pub give : {A : Type 0} → A → Read A
give a r = ok (a, r)

abbrev pub int32_max : ℕ
int32_max = 2147483647

-- `TransitionAction(value)`, of a value that was tested.
abbrev pub action_of : ℕ → TransitionAction
action_of zero = TransitionAction.normal
action_of (suc n) = TransitionAction.timeout

abbrev pub result_code_of : ℕ → ResultCode
result_code_of zero = ResultCode.ckpt_no
result_code_of (suc zero) = ResultCode.ckpt_yes
result_code_of (suc (suc zero)) = ResultCode.ckpt_exit
result_code_of (suc (suc (suc zero))) = ResultCode.ckpt_stop
result_code_of (suc (suc (suc (suc n)))) = ResultCode.ckpt_discard

abbrev pub kind_of : ℕ → DoneKind
kind_of zero = DoneKind.expanded
kind_of (suc zero) = DoneKind.terminal
kind_of (suc (suc zero)) = DoneKind.depth_cut
kind_of (suc (suc (suc zero))) = DoneKind.model_budget
kind_of (suc (suc (suc (suc n)))) = DoneKind.violation

-- uint32_t(-1), uint32_t(-2) and the int of any other choice that passed the test.
abbrev pub choice_of : ℕ → ℤ
choice_of c = if c == 4294967295 then negsuc 0 else if c == 4294967294 then negsuc 1 else pos c

-- `Input::read` of a length, without end of file allowed.
unfoldable pub read_input : ℕ → Read (List ℕ)
read_input n r =
    if ltb (length r.input) n
    then throws WireError.truncated
    else ok (take n r.input, record r { input = drop n r.input })

unfoldable pub read_bytes : ℕ → Read (List ℕ)
unfolding read_input
read_bytes n r =
    if ltb r.remaining n
    then throws WireError.payload_mismatch
    else read_input n (record r { remaining = r.remaining - n })

unfoldable pub read_scalar : ℕ → Read ℕ
read_scalar k = do bs ← read_bytes k; give (number bs)

unfoldable pub read_boolean : Read Bool
read_boolean = do
  value ← read_scalar 1
  throw_if (ltb 1 value) WireError.invalid_boolean
  give (not (value == 0))

-- A length that the limit and the payload allow.
unfoldable pub check_length : ℕ → ℕ → Read ℕ
check_length limit n r =
    if ltb limit n || ltb r.remaining n then throws WireError.length_limit else ok (n, r)

unfoldable pub read_length : ℕ → Read ℕ
read_length limit = do n ← read_scalar 8; check_length limit n

-- The objects that the limit and the payload allow: each takes 16 bytes at least.
unfoldable pub check_count : ℕ → ℕ → Read ℕ
check_count limit n r =
    if ltb limit n || ltb (r.remaining / 16) n then throws WireError.object_count else ok (n, r)

unfoldable pub read_ticket : Read Ticket
read_ticket = do
  state ← read_scalar 8
  worker ← read_scalar 8
  lease_id ← read_scalar 8
  depth ← read_scalar 8
  may_expand ← read_boolean
  give (record {
    state = state;
    worker = worker;
    lease_id = lease_id;
    depth = depth;
    may_expand = may_expand;
  })

unfoldable pub read_actor : Read ActorAction
read_actor = do
  process ← read_scalar 4
  thread ← read_scalar 4
  throw_if (ltb int32_max process || ltb int32_max thread) WireError.invalid_actor
  action ← read_scalar 1
  throw_if (ltb 1 action) WireError.invalid_action
  give (record { process = pos process; thread = pos thread; action = action_of action })

unfoldable pub read_choice : Read ℤ
read_choice = do
  choice ← read_scalar 4
  throw_if (ltb int32_max choice && not (choice == 4294967295) && not (choice == 4294967294))
      WireError.invalid_choice
  give (choice_of choice)

unfoldable pub read_choice_count : Read ℕ
read_choice_count = do
  count ← read_scalar 4
  throw_if (ltb int32_max count) WireError.invalid_choice_count
  give count

unfoldable pub read_result_code : Read ResultCode
read_result_code = do
  code ← read_scalar 1
  throw_if (ltb 4 code) WireError.invalid_result_code
  give (result_code_of code)

unfoldable pub read_kind : Read DoneKind
read_kind = do
  kind ← read_scalar 1
  throw_if (ltb 4 kind) WireError.invalid_kind
  give (kind_of kind)

module _ (l : Limits) where
  unfoldable pub read_text : Read (List ℕ)
  read_text = do n ← read_length l.max_text_bytes; read_bytes n

  unfoldable pub read_blob : Read Blob
  read_blob = do
    key ← read_scalar 8
    n ← read_length l.max_blob_bytes
    content ← read_bytes n
    give (record { key = key; content = content })

  -- The loop over the objects, of which `count` are left.
  unfoldable pub read_blobs : ℕ → Read (List Blob)
  read_blobs zero = give []
  read_blobs (suc count) = do b ← read_blob; bs ← read_blobs count; give (b ∷ bs)

  unfoldable pub read_bundle : Read Bundle
  read_bundle = do
    version ← read_scalar 4
    system_key ← read_scalar 8
    n ← read_length l.max_metadata_bytes
    metadata ← read_bytes n
    declared ← read_scalar 8
    count ← check_count l.max_blobs declared
    blobs ← read_blobs count
    give (record { version = version; system_key = system_key; metadata = metadata; blobs = blobs })

  unfoldable pub read_edge : Read Edge
  read_edge = do
    lease_id ← read_scalar 8
    source ← read_scalar 8
    target ← read_scalar 8
    actor ← read_actor
    choice ← read_choice
    choice_count ← read_choice_count
    property_violation ← read_boolean
    result_code ← read_result_code
    bundle ← read_bundle
    give (record {
      lease_id = lease_id;
      source = source;
      target = target;
      actor = actor;
      choice = choice;
      choice_count = choice_count;
      property_violation = property_violation;
      result_code = result_code;
      bundle = bundle;
    })

  unfoldable pub read_hello : Read Message
  read_hello = do
    model_identity ← read_text
    compatibility ← read_text
    give (hello (record { model_identity = model_identity; compatibility = compatibility }))

  unfoldable pub read_task : Read Message
  read_task = do
    ticket ← read_ticket
    bundle ← read_bundle
    give (task (record { ticket = ticket; bundle = bundle }))

  unfoldable pub read_edge_message : Read Message
  read_edge_message = do e ← read_edge; give (edge e)

  unfoldable pub read_done : Read Message
  read_done = do
    lease_id ← read_scalar 8
    source ← read_scalar 8
    kind ← read_kind
    emitted ← read_scalar 8
    give (done (record { lease_id = lease_id; source = source; kind = kind; emitted = emitted }))

  unfoldable pub read_error : Read Message
  read_error = do
    lease_id ← read_scalar 8
    source ← read_scalar 8
    reason ← read_text
    give (error (record { lease_id = lease_id; source = source; reason = reason }))

  -- The switch on the type of the frame.
  unfoldable pub decode : ℕ → Read Message
  unfolding read_hello read_task read_edge_message read_done read_error
  decode (suc zero) = read_hello
  decode (suc (suc zero)) = read_task
  decode (suc (suc (suc zero))) = read_edge_message
  decode (suc (suc (suc (suc zero)))) = read_done
  decode (suc (suc (suc (suc (suc zero))))) = read_error
  decode (suc (suc (suc (suc (suc (suc zero)))))) = give shutdown
  decode _ = λ r. throws WireError.unknown_type
