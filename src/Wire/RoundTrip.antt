-- ===== src/Wire/RoundTrip.antt =====
-- Each message is read as it was written, and received as it was sent.
use det_sim.Base.{ℕ, zero, suc, ◌≤◌, ◌<◌, refl, length, arith, ℤ, pos, negsuc}
use det_sim.Frontier.State.{Ticket}
use det_sim.Wire.{
  Limits, Bundle, TransitionAction, ResultCode, ActorAction, Edge, DoneKind, Message, hello, task,
  edge, done, error, shutdown,
}
use det_sim.Wire.Encode.{
  write_scalar, write_bundle, write_ticket, write_actor, write_edge, encode, result_code_value,
  kind_value, uint32_of,
}
use det_sim.Wire.Decode.{
  ◌>>◌, give, read_bundle, read_ticket, read_actor, read_choice, read_choice_count,
  read_result_code, read_kind, read_edge, decode, int32_max,
}
use det_sim.Wire.Frame.{type_code}
use det_sim.Wire.Law.{Law, seq, last, refuse, weaken, pass, counted, nothing}
use det_sim.Wire.Parts.{
  IsWord, AreWords, Keyed, scalar-Law, boolean-Law, length-Law, text-Law, counted-Law, bytes-Law,
}

-- What the types of the fields hold, and what the receiver asks of them: the words are words, a
-- process and a thread are not negative, a choice is an index or -1 or -2.
pub record BundleFits (b : Bundle) : Type 0 where
  pub version : b.version < 4294967296
  pub system_key : IsWord b.system_key
  pub keyed : Keyed b.blobs

pub record TicketFits (t : Ticket) : Type 0 where
  pub state : IsWord t.state
  pub worker : IsWord t.worker
  pub lease_id : IsWord t.lease_id
  pub depth : IsWord t.depth

abbrev pub IsIndex : ℤ → Type 0
IsIndex (pos n) = n ≤ int32_max
IsIndex (negsuc n) = ⊥

abbrev pub IsChoice : ℤ → Type 0
IsChoice (pos n) = n ≤ int32_max
IsChoice (negsuc n) = n ≤ 1

pub record EdgeFits (e : Edge) : Type 0 where
  pub lease_id : IsWord e.lease_id
  pub source : IsWord e.source
  pub target : IsWord e.target
  pub process : IsIndex e.actor.process
  pub thread : IsIndex e.actor.thread
  pub choice : IsChoice e.choice
  pub choice_count : e.choice_count ≤ int32_max
  pub bundle : BundleFits e.bundle

abbrev pub Fits : Message → Type 0
Fits (hello h) = Unit {0}
Fits (task t) = TicketFits t.ticket × BundleFits t.bundle
Fits (edge e) = EdgeFits e
Fits (done d) = IsWord d.lease_id × IsWord d.source × IsWord d.emitted
Fits (error e) = IsWord e.lease_id × IsWord e.source
Fits shutdown = Unit {0}

module _ (l : Limits) (ws : AreWords l) where
  bundle-Law : (b : Bundle) → BundleFits b → Law l (write_bundle l b) (read_bundle l) b 0
  unfolding write_bundle read_bundle give
  bundle-Law b f = refuse _ (λ h. weaken (omega arith) (
      seq _ (scalar-Law l 4 b.version (omega (arith, f.version))) (
        seq _ (scalar-Law l 8 b.system_key (omega (arith, f.system_key))) (
          length-Law l _ l.max_metadata_bytes (length b.metadata) ws.metadata (ground arith)
            (omega arith)
            (seq _ (bytes-Law l b.metadata) (
              seq _ (scalar-Law l 8 (length b.blobs) (ground (arith, ws.blobs))) (
                counted _ l.max_blobs (length b.blobs) (ground arith) (omega arith)
                  (last _ (counted-Law l ws b.blobs f.keyed) (λ r. refl)))))))))

  ticket-Law : (t : Ticket) → TicketFits t → Law l (write_ticket l t) read_ticket t 0
  unfolding write_ticket read_ticket give
  ticket-Law t f = weaken (omega arith) (
      seq _ (scalar-Law l 8 t.state (omega (arith, f.state))) (
        seq _ (scalar-Law l 8 t.worker (omega (arith, f.worker))) (
          seq _ (scalar-Law l 8 t.lease_id (omega (arith, f.lease_id))) (
            seq _ (scalar-Law l 8 t.depth (omega (arith, f.depth)))
              (last _ (boolean-Law l t.may_expand) (λ r. refl))))))

  actor-Law :
      (p t : ℤ) (a : TransitionAction)
      → IsIndex p
      → IsIndex t
      → let actor : ActorAction = record { process = p; thread = t; action = a } in
        Law l (write_actor l actor) read_actor actor 0
  unfolding write_actor read_actor give ◌>>◌
  actor-Law (negsuc p) t a h i = elim h [ ]
  actor-Law (pos p) (negsuc t) a h i = elim i [ ]
  actor-Law (pos p) (pos t) TransitionAction.normal h i = weaken (omega arith) (
      seq _ (scalar-Law l 4 (uint32_of (pos p)) (omega arith)) (
        seq _ (scalar-Law l 4 (uint32_of (pos t)) (omega arith))
          (pass _ (ground arith) (last _ (scalar-Law l 1 0 (omega arith)) (λ r. ground arith)))))
  actor-Law (pos p) (pos t) TransitionAction.timeout h i = weaken (omega arith) (
      seq _ (scalar-Law l 4 (uint32_of (pos p)) (omega arith)) (
        seq _ (scalar-Law l 4 (uint32_of (pos t)) (omega arith))
          (pass _ (ground arith) (last _ (scalar-Law l 1 1 (omega arith)) (λ r. ground arith)))))

  choice-Law : (c : ℤ) → IsChoice c → Law l (write_scalar l 4 (uint32_of c)) read_choice c 4
  unfolding read_choice give ◌>>◌
  choice-Law (pos n) h =
      last _ (scalar-Law l 4 (uint32_of (pos n)) (omega arith)) (λ r. ground arith)
  choice-Law (negsuc zero) h =
      last _ (scalar-Law l 4 (uint32_of (negsuc 0)) (omega arith)) (λ r. refl)
  choice-Law (negsuc (suc zero)) h =
      last _ (scalar-Law l 4 (uint32_of (negsuc 1)) (omega arith)) (λ r. refl)
  choice-Law (negsuc (suc (suc n))) h = absurd (omega arith)

  count-Law : (n : ℕ) → n ≤ int32_max → Law l (write_scalar l 4 n) read_choice_count n 4
  unfolding read_choice_count give ◌>>◌
  count-Law n h = last _ (scalar-Law l 4 n (omega arith)) (λ r. ground arith)

  result_code-Law :
      (c : ResultCode) → Law l (write_scalar l 1 (result_code_value c)) read_result_code c 1
  unfolding read_result_code give ◌>>◌
  result_code-Law ResultCode.ckpt_no = last _ (scalar-Law l 1 0 (omega arith)) (λ r. refl)
  result_code-Law ResultCode.ckpt_yes = last _ (scalar-Law l 1 1 (omega arith)) (λ r. refl)
  result_code-Law ResultCode.ckpt_exit = last _ (scalar-Law l 1 2 (omega arith)) (λ r. refl)
  result_code-Law ResultCode.ckpt_stop = last _ (scalar-Law l 1 3 (omega arith)) (λ r. refl)
  result_code-Law ResultCode.ckpt_discard = last _ (scalar-Law l 1 4 (omega arith)) (λ r. refl)

  kind-Law : (k : DoneKind) → Law l (write_scalar l 1 (kind_value k)) read_kind k 1
  unfolding read_kind give ◌>>◌
  kind-Law DoneKind.expanded = last _ (scalar-Law l 1 0 (omega arith)) (λ r. refl)
  kind-Law DoneKind.terminal = last _ (scalar-Law l 1 1 (omega arith)) (λ r. refl)
  kind-Law DoneKind.depth_cut = last _ (scalar-Law l 1 2 (omega arith)) (λ r. refl)
  kind-Law DoneKind.model_budget = last _ (scalar-Law l 1 3 (omega arith)) (λ r. refl)
  kind-Law DoneKind.violation = last _ (scalar-Law l 1 4 (omega arith)) (λ r. refl)

  edge-Law : (e : Edge) → EdgeFits e → Law l (write_edge l e) (read_edge l) e 0
  unfolding write_edge read_edge give
  edge-Law e f = weaken (omega arith) (
      seq _ (scalar-Law l 8 e.lease_id (omega (arith, f.lease_id))) (
        seq _ (scalar-Law l 8 e.source (omega (arith, f.source))) (
          seq _ (scalar-Law l 8 e.target (omega (arith, f.target))) (
            seq _ (actor-Law e.actor.process e.actor.thread e.actor.action f.process f.thread) (
              seq _ (choice-Law e.choice f.choice) (
                seq _ (count-Law e.choice_count f.choice_count) (
                  seq _ (boolean-Law l e.property_violation) (
                    seq _ (result_code-Law e.result_code)
                      (last _ (bundle-Law e.bundle f.bundle) (λ r. refl))))))))))

  pub encode-Law : (m : Message) → Fits m → Law l (encode l m) (decode l (type_code m)) m 0
  unfolding encode decode give
  encode-Law (hello h) f =
      weaken (omega arith) (
        seq _ (text-Law l ws h.model_identity) (last _ (text-Law l ws h.compatibility) (λ r. refl)))
  encode-Law (task t) f =
      weaken (omega arith)
        (seq _ (ticket-Law t.ticket f.0) (last _ (bundle-Law t.bundle f.1) (λ r. refl)))
  encode-Law (edge e) f = last _ (edge-Law e f) (λ r. refl)
  encode-Law (done d) f = weaken (omega arith) (
      seq _ (scalar-Law l 8 d.lease_id (omega arith)) (
        seq _ (scalar-Law l 8 d.source (omega arith))
          (seq _ (kind-Law d.kind) (last _ (scalar-Law l 8 d.emitted (omega arith)) (λ r. refl)))))
  encode-Law (error e) f = weaken (omega arith) (
      seq _ (scalar-Law l 8 e.lease_id (omega arith)) (
        seq _ (scalar-Law l 8 e.source (omega arith))
          (last _ (text-Law l ws e.reason) (λ r. refl))))
  encode-Law shutdown f = nothing shutdown
