-- ===== src/Frontier/Leases.antt =====
-- Each call of src/core/search/frontier.cpp keeps what Frontier/Holders says of the leases.
use det_sim.Base.{
  ℕ, ◌<◌, ◌≡◌, ◌≢◌, refl, sym, ap, subst, Bool-cases, inl, inr, ◌⊎◌, Option, some, none, [], arith,
  ok, ℤ, ◌==◌,
}
use det_sim.Base.Map.{Ordered, find}
use det_sim.Frontier.State.{
  StateKey, WorkerId, Policy, Ticket, Expansion, ResultKind, Node, NodePhase, Frontier, construct,
  update, write_node, index_add, index_remove, moved,
}
use det_sim.Frontier.Propagate.{insert_node, improve, new_node, after_cut}
use det_sim.Frontier.Lease.{dispatch, ticket_for, hold}
use det_sim.Frontier.Commit.{settle, lose, held_by, phase_of, committed_phase}
use det_sim.Frontier.Invariant.{Kept, Reach, Reach-keeps}
use det_sim.Frontier.Order.{InOrder, Kept-InOrder}
use det_sim.Frontier.Distances.{find-insert_node, find-improve}
use det_sim.Frontier.Settled.{find-dispatch, find-settle, settled_node}
use det_sim.Frontier.Lost.{find-lose, back}
use det_sim.Frontier.Verdict.{construct-start}
use det_sim.Frontier.Holders.{Holds, IsLeased, written-IsLeased}

insert_node-IsLeased :
    (f : Frontier) (k : StateKey) (d : ℕ)
    → find k f.nodes ≡ none
    → InOrder (insert_node f k d)
    → IsLeased f
    → IsLeased (insert_node f k d)
unfolding insert_node index_add
insert_node-IsLeased f k d e o v = record {
  in_order = o;
  holds = λ j n g. elim (Bool-cases (k == j)) [
    | inl q ↦
        let same : new_node f d ≡ n = ground (arith, find-insert_node f k d j) in
        subst (λ (x : Node). Holds f.next_lease j x.phase x.ticket) same
          (λ p. absurd (ground arith))
    | inr q ↦ v.holds j n (ground (arith, find-insert_node f k d j))
  ];
  distinct = λ i j m n s t a b p q l.
      v.distinct i j m n s t (ground (arith, find-insert_node f k d i))
        (ground (arith, find-insert_node f k d j)) p q l;
}

after_cut-Holds :
    (top : ℕ) (k : StateKey) (p : NodePhase) (o : Option Ticket)
    → Holds top k p o
    → Holds top k (after_cut p) o
after_cut-Holds top k p none h = ground arith
after_cut-Holds top k p (some t) h = (ground arith, h.1, h.2)

improve-IsLeased :
    (f : Frontier) (k : StateKey) (n : Node) (d : ℕ)
    → find k f.nodes ≡ some n
    → InOrder (improve f k n d)
    → IsLeased f
    → IsLeased (improve f k n d)
unfolding improve update index_add write_node index_remove
improve-IsLeased f k n d e o v =
    written-IsLeased f (improve f k n d) k n (moved (after_cut n.phase) d) e (find-improve f k n d)
      (omega arith) (after_cut-Holds f.next_lease k n.phase n.ticket (v.holds k n e)) (λ t p. inl p)
      v o

dispatch-IsLeased :
    (f : Frontier) (w : WorkerId) (k : StateKey) (n : Node) (c : ℕ)
    → find k f.nodes ≡ some n
    → InOrder (dispatch f k n (ticket_for f w k n) c)
    → IsLeased f
    → IsLeased (dispatch f k n (ticket_for f w k n) c)
unfolding dispatch update index_add write_node index_remove
dispatch-IsLeased f w k n c e o v =
    written-IsLeased f (dispatch f k n (ticket_for f w k n) c) k n
      (λ m. hold (ticket_for f w k n) (moved NodePhase.inflight n.depth m)) e
      (find-dispatch f k n (ticket_for f w k n) c) (omega arith) (refl, refl, omega arith)
      (λ t p. inr (ground arith)) v o

settle-IsLeased :
    (f : Frontier) (k : StateKey) (n : Node) (x : Expansion)
    → find k f.nodes ≡ some n
    → InOrder (settle f k n x)
    → IsLeased f
    → IsLeased (settle f k n x)
unfolding settle update index_add write_node index_remove
settle-IsLeased f k n x e o v =
    written-IsLeased f (settle f k n x) k n (settled_node f n x) e (find-settle f k n x)
      (omega arith) (not_inflight x.kind) (λ t p. absurd (ground arith)) v o
  where
    not_inflight : (r : ResultKind) → committed_phase f n (phase_of r) ≢ NodePhase.inflight
    not_inflight ResultKind.expanded = λ p. absurd (ground arith)
    not_inflight ResultKind.terminal = λ p. absurd (ground arith)
    not_inflight ResultKind.depth_cut = λ p. absurd (ground arith)
    not_inflight ResultKind.model_budget = λ p. absurd (ground arith)
    not_inflight ResultKind.failure = λ p. absurd (ground arith)

lose-next_lease :
    (w : WorkerId) (k : StateKey) (n : Node) (f : Frontier) (c : ℕ)
    → (lose w k n (f, c)).0.next_lease ≡ f.next_lease
unfolding lose update index_add write_node index_remove
lose-next_lease w k n f c = elim (Bool-cases (held_by w n.ticket)) [
  | inl h ↦ rw h refl
  | inr h ↦ rw h refl
]

lose-IsLeased :
    (w : WorkerId) (k : StateKey) (n : Node) (f : Frontier) (c : ℕ)
    → find k f.nodes ≡ some n
    → InOrder (lose w k n (f, c)).0
    → IsLeased f
    → IsLeased (lose w k n (f, c)).0
lose-IsLeased w k n f c e o v =
    written-IsLeased f (lose w k n (f, c)).0 k n (back w n) e (find-lose w k n f c)
      (omega (arith, lose-next_lease w k n f c))
      (subst (λ x. Holds x k (back w n n).phase (back w n n).ticket)
        (sym (lose-next_lease w k n f c)) fits)
      fresh v o
  where
    fits : Holds f.next_lease k (back w n n).phase (back w n n).ticket
    fits = elim (Bool-cases (held_by w n.ticket)) [
      | inl h ↦ rw h (λ p. absurd (ground arith))
      | inr h ↦ rw h (v.holds k n e)
    ]

    fresh :
        (t : Ticket)
        → (back w n n).ticket ≡ some t
        → (n.ticket ≡ some t) ⊎ (f.next_lease < t.lease_id)
    fresh t p = inl (ground arith)

Kept-IsLeased : Kept IsLeased
Kept-IsLeased = record {
  ordered = λ f v. v.in_order;
  recounted = λ f c v. record { in_order = v.in_order; holds = v.holds; distinct = v.distinct };
  entered =
      λ f k d h r q v. insert_node-IsLeased f k d h (Kept-InOrder.entered f k d h r q v.in_order) v;
  shortened =
      λ f k n d h l v. improve-IsLeased f k n d h (Kept-InOrder.shortened f k n d h l v.in_order) v;
  dispatched = λ f w k n c h l v.
      dispatch-IsLeased f w k n c h (Kept-InOrder.dispatched f w k n c h l v.in_order) v;
  given_back =
      λ f k n x h v. settle-IsLeased f k n x h (Kept-InOrder.given_back f k n x h v.in_order) v;
  lost = λ w k n f c h v. lose-IsLeased w k n f c h (Kept-InOrder.lost w k n f c h v.in_order) v;
}

start-IsLeased : (f : Frontier) → f.nodes ≡ [] → IsLeased f
unfolding find
start-IsLeased f e = record {
  in_order = subst Ordered (sym e) tt;
  holds = λ k n q. absurd (nothing k n (ap (find k) e) q);
  distinct = λ j k m n s t d q a b i. absurd (nothing k n (ap (find k) e) q);
}
  where
    nothing : (k : ℕ) (n : Node) → find k f.nodes ≡ none → find k f.nodes ≡ some n → ⊥
    nothing k n p q = cc

-- After any calls that return, on a frontier as constructed, each node in flight holds a ticket for
-- its own state, no other node holds one, and two nodes never hold tickets of the same number, so a
-- ticket is a lease of one node.
pub Reach-IsLeased :
    (limit : ℕ) (policy : Policy) (priority : Option (StateKey → ℕ → ℤ)) (max_states : ℕ)
    {f g : Frontier}
    → construct limit policy priority max_states ≡ ok f
    → Reach f g
    → IsLeased g
Reach-IsLeased limit policy priority max_states {f} h r =
    Reach-keeps IsLeased Kept-IsLeased r
      (start-IsLeased f (construct-start limit policy priority max_states f h).0)
