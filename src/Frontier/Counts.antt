-- ===== src/Frontier/Counts.antt =====
-- The phase counts are the numbers of nodes in each phase, modulo the width of a word.
use det_sim.Base.{
  ℕ, suc, ◌+◌, ◌≤◌, ◌≡◌, ◌≢◌, ◌∙◌, refl, true, false, Bool, none, some, [], ◌∷◌, arith, Bool-cases,
  inl, inr, length,
}
use det_sim.Base.Map.{Map, find, put, modify, find-modify}
use det_sim.Frontier.State.{
  StateKey, WorkerId, Expansion, Node, NodePhase, Frontier, index_add, index_remove, update, moved,
  write_node, u64, ◌==ᴾ◌,
}
use det_sim.Frontier.Propagate.{insert_node, improve, new_node, after_cut}
use det_sim.Frontier.Lease.{dispatch, hold, ticket_for}
use det_sim.Frontier.Commit.{
  settle, lose, held_by, without_ticket, with_result, committed_phase, phase_of,
}
use det_sim.Frontier.Order.{InOrder, Kept-InOrder}
use det_sim.Frontier.Invariant.{Kept}

abbrev pub one_if : Bool → ℕ
one_if true = 1
one_if false = 0

-- The nodes of a phase.
unfoldable pub count : NodePhase → Map Node → ℕ
count p [] = 0
count p ((k, n) ∷ m) = one_if (n.phase ==ᴾ p) + count p m

count-put :
    (p : NodePhase) (k : StateKey) (n : Node) (m : Map Node)
    → find k m ≡ none
    → count p (put k n m) ≡ one_if (n.phase ==ᴾ p) + count p m
unfolding count put find
count-put p k n [] h = refl
count-put p k n ((j, w) ∷ m) h = ground (arith, count-put p k n m)

count-modify :
    (p : NodePhase) (k : StateKey) (h : Node → Node) (n : Node) (m : Map Node)
    → find k m ≡ some n
    → count p (modify k h m) + one_if (n.phase ==ᴾ p) ≡ count p m + one_if ((h n).phase ==ᴾ p)
unfolding count modify find
count-modify p k h n [] e = ground arith
count-modify p k h n ((j, w) ∷ m) e = ground (arith, count-modify p k h n m)

length-put :
    (k : StateKey) (n : Node) (m : Map Node) → find k m ≡ none → length (put k n m) ≡ suc (length m)
unfolding put find
length-put k n [] h = refl
length-put k n ((j, w) ∷ m) h = ground (arith, length-put k n m)

length-modify : (k : StateKey) (h : Node → Node) (m : Map Node) → length (modify k h m) ≡ length m
unfolding modify
length-modify k h [] = refl
length-modify k h ((j, w) ∷ m) = ground (arith, length-modify k h m)

abbrev pub Counts : Frontier → Type 0
Counts f = (p : NodePhase) → f.phase_counts p ≡ u64 (count p f.nodes)

pub record IsCounted (f : Frontier) : Type 0 where
  pub in_order : InOrder f
  pub counts : Counts f
  pub room : length f.nodes ≤ f.max_states

-- Moving a node moves one unit of the counts.
update-Counts :
    (f : Frontier) (k : StateKey) (n : Node) (p : NodePhase) (d : ℕ)
    → find k f.nodes ≡ some n
    → Counts f
    → Counts (update f k n p d)
unfolding update index_add index_remove write_node
update-Counts f k n p d e c q = ground (arith, c q, count-modify q k (moved p d) n f.nodes e)

count-modify_same :
    (p : NodePhase) (k : StateKey) (h : Node → Node) (m : Map Node)
    → ((n : Node) → (h n).phase ≡ n.phase)
    → count p (modify k h m) ≡ count p m
unfolding count modify
count-modify_same p k h [] s = refl
count-modify_same p k h ((j, w) ∷ m) s = ground (arith, s w, count-modify_same p k h m s)

-- A write that keeps the phase keeps the counts.
write_node-Counts :
    (f : Frontier) (k : StateKey) (h : Node → Node)
    → ((n : Node) → (h n).phase ≡ n.phase)
    → Counts f
    → Counts (write_node f k h)
unfolding write_node
write_node-Counts f k h s c p = c p ∙ rw (count-modify_same p k h f.nodes s)

insert_node-Counts :
    (f : Frontier) (k : StateKey) (d : ℕ)
    → find k f.nodes ≡ none
    → Counts f
    → Counts (insert_node f k d)
unfolding insert_node index_add
insert_node-Counts f k d h c p = ground (arith, c p, count-put p k (new_node f d) f.nodes h)

dispatch-Counts :
    (f : Frontier) (w : WorkerId) (k : StateKey) (n : Node) (c : ℕ)
    → find k f.nodes ≡ some n
    → Counts f
    → Counts (dispatch f k n (ticket_for f w k n) c)
unfolding dispatch
dispatch-Counts f w k n c e a =
    write_node-Counts (update (record f { next_lease = suc_lease }) k n NodePhase.inflight n.depth)
      k (hold (ticket_for f w k n)) (λ m. refl)
      (update-Counts (record f { next_lease = suc_lease }) k n NodePhase.inflight n.depth e a)
  where
    suc_lease : ℕ
    suc_lease = f.next_lease + 1

settle-Counts :
    (f : Frontier) (k : StateKey) (n : Node) (x : Expansion)
    → find k f.nodes ≡ some n
    → Counts f
    → Counts (settle f k n x)
unfolding settle
settle-Counts f k n x e a =
    let g = write_node f k (with_result x) in
    let p = committed_phase f n (phase_of x.kind) in
    write_node-Counts (update g k (with_result x n) p n.depth) k without_ticket (λ m. refl)
      (update-Counts g k (with_result x n) p n.depth (found f k n x e)
        (write_node-Counts f k (with_result x) (λ m. refl) a))
  where
    found :
        (f : Frontier) (k : StateKey) (n : Node) (x : Expansion)
        → find k f.nodes ≡ some n
        → find k (write_node f k (with_result x)).nodes ≡ some (with_result x n)
    found f k n x e =
        unfold write_node in ground (arith, e, find-modify k k (with_result x) f.nodes)

lose-Counts :
    (w : WorkerId) (k : StateKey) (n : Node) (f : Frontier) (c : ℕ)
    → find k f.nodes ≡ some n
    → Counts f
    → Counts (lose w k n (f, c)).0
unfolding lose
lose-Counts w k n f c e a = elim (Bool-cases (held_by w n.ticket)) [
  | inl h ↦ rw h (
      write_node-Counts (update f k n NodePhase.pending n.depth) k without_ticket (λ m. refl)
        (update-Counts f k n NodePhase.pending n.depth e a))
  | inr h ↦ rw h a
]

insert_node-room :
    (f : Frontier) (k : StateKey) (d : ℕ)
    → find k f.nodes ≡ none
    → length f.nodes ≢ f.max_states
    → length f.nodes ≤ f.max_states
    → length (insert_node f k d).nodes ≤ (insert_node f k d).max_states
unfolding insert_node index_add
insert_node-room f k d h r l = omega (arith, length-put k (new_node f d) f.nodes h)

-- The other writes change no length and no capacity.
abbrev SameSize : Frontier → Frontier → Type 0
SameSize f g = (length g.nodes ≡ length f.nodes) × (g.max_states ≡ f.max_states)

update-size :
    (f : Frontier) (k : StateKey) (n : Node) (p : NodePhase) (d : ℕ) → SameSize f (update f k n p d)
unfolding update index_add index_remove write_node
update-size f k n p d = (length-modify k (moved p d) f.nodes, refl)

write_node-size : (f : Frontier) (k : StateKey) (h : Node → Node) → SameSize f (write_node f k h)
unfolding write_node
write_node-size f k h = (length-modify k h f.nodes, refl)

dispatch-size :
    (f : Frontier) (w : WorkerId) (k : StateKey) (n : Node) (c : ℕ)
    → SameSize f (dispatch f k n (ticket_for f w k n) c)
unfolding dispatch
dispatch-size f w k n c =
    let g = record f { next_lease = f.next_lease + 1 } in
    let a = update-size g k n NodePhase.inflight n.depth in
    let b =
      write_node-size (update g k n NodePhase.inflight n.depth) k (hold (ticket_for f w k n)) in
    (b.0 ∙ a.0, b.1 ∙ a.1)

settle-size : (f : Frontier) (k : StateKey) (n : Node) (x : Expansion) → SameSize f (settle f k n x)
unfolding settle
settle-size f k n x =
    let g = write_node f k (with_result x) in
    let p = committed_phase f n (phase_of x.kind) in
    let a = write_node-size f k (with_result x) in
    let b = update-size g k (with_result x n) p n.depth in
    let c = write_node-size (update g k (with_result x n) p n.depth) k without_ticket in
    (c.0 ∙ b.0 ∙ a.0, c.1 ∙ b.1 ∙ a.1)

lose-size :
    (w : WorkerId) (k : StateKey) (n : Node) (f : Frontier) (c : ℕ)
    → SameSize f (lose w k n (f, c)).0
unfolding lose
lose-size w k n f c = elim (Bool-cases (held_by w n.ticket)) [
  | inl h ↦
      let a = update-size f k n NodePhase.pending n.depth in
      let b = write_node-size (update f k n NodePhase.pending n.depth) k without_ticket in
      rw h (b.0 ∙ a.0, b.1 ∙ a.1)
  | inr h ↦ rw h (refl, refl)
]

pub Kept-IsCounted : Kept IsCounted
unfolding improve
Kept-IsCounted = record {
  ordered = λ f v. v.in_order;
  recounted = λ f c v. record { in_order = v.in_order; counts = v.counts; room = v.room };
  entered = λ f k d h r q v. record {
    in_order = Kept-InOrder.entered f k d h r q v.in_order;
    counts = insert_node-Counts f k d h v.counts;
    room = insert_node-room f k d h r v.room;
  };
  shortened = λ f k n d h l v. record {
    in_order = Kept-InOrder.shortened f k n d h l v.in_order;
    counts = update-Counts f k n (after_cut n.phase) d h v.counts;
    room = omega (arith, update-size f k n (after_cut n.phase) d, v.room);
  };
  dispatched = λ f w k n c h l v. record {
    in_order = Kept-InOrder.dispatched f w k n c h l v.in_order;
    counts = dispatch-Counts f w k n c h v.counts;
    room = omega (arith, dispatch-size f w k n c, v.room);
  };
  given_back = λ f k n x h v. record {
    in_order = Kept-InOrder.given_back f k n x h v.in_order;
    counts = settle-Counts f k n x h v.counts;
    room = omega (arith, settle-size f k n x, v.room);
  };
  lost = λ w k n f c h v. record {
    in_order = Kept-InOrder.lost w k n f c h v.in_order;
    counts = lose-Counts w k n f c h v.counts;
    room = omega (arith, lose-size w k n f c, v.room);
  };
}
