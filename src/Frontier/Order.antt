-- ===== src/Frontier/Order.antt =====
-- The nodes stay in key order under every call.
use det_sim.Base.{ℕ, arith, Bool-cases, inl, inr}
use det_sim.Base.Map.{Ordered, modify, put-From, modify-From}
use det_sim.Frontier.State.{
  StateKey, WorkerId, Expansion, Node, NodePhase, Frontier, index_add, update, write_node,
  index_remove, moved,
}
use det_sim.Frontier.Propagate.{insert_node, improve, new_node, after_cut}
use det_sim.Frontier.Lease.{dispatch, hold, ticket_for}
use det_sim.Frontier.Commit.{
  settle, lose, held_by, without_ticket, with_result, committed_phase, phase_of,
}
use det_sim.Frontier.Invariant.{Kept}

abbrev pub InOrder : Frontier → Type 0
InOrder f = Ordered f.nodes

pub dispatch-InOrder :
    (f : Frontier) (w : WorkerId) (k : StateKey) (n : Node) (c : ℕ)
    → InOrder f
    → InOrder (dispatch f k n (ticket_for f w k n) c)
unfolding dispatch update index_add write_node index_remove
dispatch-InOrder f w k n c o =
    modify-From 0 k (hold (ticket_for f w k n))
      (modify k (moved NodePhase.inflight n.depth) f.nodes)
      (modify-From 0 k (moved NodePhase.inflight n.depth) f.nodes o)

settle-InOrder :
    (f : Frontier) (k : StateKey) (n : Node) (x : Expansion) → InOrder f → InOrder (settle f k n x)
unfolding settle update index_add write_node index_remove
settle-InOrder f k n x o =
    let one = modify-From 0 k (with_result x) f.nodes o in
    let moving = moved (committed_phase f n (phase_of x.kind)) n.depth in
    modify-From 0 k without_ticket (modify k moving (modify k (with_result x) f.nodes))
      (modify-From 0 k moving (modify k (with_result x) f.nodes) one)

lose-InOrder :
    (w : WorkerId) (k : StateKey) (n : Node) (f : Frontier) (c : ℕ)
    → InOrder f
    → InOrder (lose w k n (f, c)).0
unfolding lose update index_add write_node index_remove
lose-InOrder w k n f c o = elim (Bool-cases (held_by w n.ticket)) [
  | inl h ↦ rw h (
      modify-From 0 k without_ticket (modify k (moved NodePhase.pending n.depth) f.nodes)
        (modify-From 0 k (moved NodePhase.pending n.depth) f.nodes o))
  | inr h ↦ rw h o
]

pub Kept-InOrder : Kept InOrder
unfolding insert_node index_add improve update write_node index_remove
Kept-InOrder = record {
  ordered = λ f o. o;
  recounted = λ f c o. o;
  entered = λ f k d h r q o. put-From 0 k (new_node f d) f.nodes (omega arith) o;
  shortened = λ f k n d h l o. modify-From 0 k (moved (after_cut n.phase) d) f.nodes o;
  dispatched = λ f w k n c h l o. dispatch-InOrder f w k n c o;
  given_back = λ f k n x h o. settle-InOrder f k n x o;
  lost = λ w k n f c h o. lose-InOrder w k n f c o;
}
