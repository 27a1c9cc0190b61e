-- ===== src/Frontier/Visit.antt =====
-- The cases of one round of the propagation loop.
use det_sim.Base.{
  ℕ, ◌≤◌, ◌<◌, ◌≡◌, ◌≢◌, none, some, [], length, arith, ok, throws, leb, ◌==◌, Bool-cases,
  Option-cases, inl, inr,
}
use det_sim.Base.Map.{find}
use det_sim.Frontier.State.{
  StateKey, Node, Frontier, Call, capacity_exceeded, sequence_exhausted, u64_max,
}
use det_sim.Frontier.Propagate.{
  Work, visit, visit_new, visit_found, insert_node, improve, count_duplicate, push_successors,
}

-- What a round does, with the test that led there.
pub data Visits (f : Frontier) (k : StateKey) (d : ℕ) : Call Work → Type 0 where
  no_room :
      find k f.nodes ≡ none
      → length f.nodes ≡ f.max_states
      → Visits f k d (f, throws capacity_exceeded)
  no_sequence :
      find k f.nodes ≡ none
      → f.next_sequence ≡ u64_max
      → Visits f k d (f, throws sequence_exhausted)
  inserted :
      find k f.nodes ≡ none
      → length f.nodes ≢ f.max_states
      → f.next_sequence ≢ u64_max
      → Visits f k d (insert_node f k d, ok [])
  kept :
      (n : Node) → find k f.nodes ≡ some n → n.depth ≤ d → Visits f k d (count_duplicate f, ok [])
  improved :
      (n : Node)
      → find k f.nodes ≡ some n
      → d < n.depth
      → Visits f k d (improve (count_duplicate f) k n d, ok (push_successors n d))

visit_new-Visits :
    (f : Frontier) (k : StateKey) (d : ℕ) → find k f.nodes ≡ none → Visits f k d (visit_new f k d)
unfolding visit_new
visit_new-Visits f k d h = elim (Bool-cases (length f.nodes == f.max_states)) [
  | inl e ↦ rw e (no_room h (ground arith))
  | inr e ↦ elim (Bool-cases (f.next_sequence == u64_max)) [
    | inl s ↦ rw (e, s) (no_sequence h (ground arith))
    | inr s ↦ rw (e, s) (inserted h (ground arith) (ground arith))
  ]
]

visit_found-Visits :
    (f : Frontier) (k : StateKey) (d : ℕ) (n : Node)
    → find k f.nodes ≡ some n
    → Visits f k d (visit_found f k d n)
unfolding visit_found
visit_found-Visits f k d n h = elim (Bool-cases (leb n.depth d)) [
  | inl e ↦ rw e (kept n h (ground arith))
  | inr e ↦ rw e (improved n h (ground arith))
]

pub visit-Visits : (f : Frontier) (k : StateKey) (d : ℕ) → Visits f k d (visit f k d)
unfolding visit
visit-Visits f k d = elim (Option-cases (find k f.nodes)) [
  | inl e ↦ rw (e, visit) (visit_new-Visits f k d e)
  | inr (n, e) ↦ rw (e, visit) (visit_found-Visits f k d n e)
]
