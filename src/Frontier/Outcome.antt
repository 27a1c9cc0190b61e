-- ===== src/Frontier/Outcome.antt =====
-- What the status says of a whole run of the search, src/core/search/frontier.cpp.
use det_sim.Base.{ℕ, ◌≤◌, ◌≡◌, sym, subst, false, Bool-cases, inl, inr, Option, ok, ℤ}
use det_sim.Frontier.State.{
  StateKey, WorkerId, Policy, Node, Frontier, construct, u64_max, update, write_node, index_add,
  index_remove,
}
use det_sim.Frontier.Propagate.{insert_node, improve}
use det_sim.Frontier.Lease.{dispatch}
use det_sim.Frontier.Commit.{settle, lose, held_by, status}
use det_sim.Frontier.Invariant.{Kept, Reach, Reach-keeps}
use det_sim.Frontier.Counts.{IsCounted, Kept-IsCounted}
use det_sim.Frontier.Verdict.{Verdict, status-Verdict, construct-start, start-IsCounted}

-- The frontier's capacity is `c`, and no allocation has failed.
abbrev SameLimits : ℕ → Frontier → Type 0
SameLimits c f = (f.max_states ≡ c) × (f.poisoned ≡ false)

lose-SameLimits :
    (c : ℕ) (w : WorkerId) (k : StateKey) (n : Node) (f : Frontier) (i : ℕ)
    → SameLimits c f
    → SameLimits c (lose w k n (f, i)).0
unfolding lose update write_node index_add index_remove
lose-SameLimits c w k n f i v = elim (Bool-cases (held_by w n.ticket)) [
  | inl h ↦ rw h v
  | inr h ↦ rw h v
]

Kept-SameLimits : (c : ℕ) → Kept (λ f. IsCounted f × SameLimits c f)
unfolding insert_node improve dispatch settle update write_node index_add index_remove
Kept-SameLimits c = record {
  ordered = λ f v. Kept-IsCounted.ordered f v.0;
  recounted = λ f d v. (Kept-IsCounted.recounted f d v.0, v.1);
  entered = λ f k d h r q v. (Kept-IsCounted.entered f k d h r q v.0, v.1);
  shortened = λ f k n d h l v. (Kept-IsCounted.shortened f k n d h l v.0, v.1);
  dispatched = λ f w k n i h l v. (Kept-IsCounted.dispatched f w k n i h l v.0, v.1);
  given_back = λ f k n x h v. (Kept-IsCounted.given_back f k n x h v.0, v.1);
  lost = λ w k n f i h v. (Kept-IsCounted.lost w k n f i h v.0, lose-SameLimits c w k n f i v.1);
}

-- After any calls that return, on a frontier as constructed with a capacity that fits a word, the
-- status is failed only if a node failed; running only if none did and one is pending or in flight;
-- bounded only if none is any of these and one was cut at the depth limit or by its budget; and
-- complete only if every node is expanded or terminal.
pub Reach-status :
    (limit : ℕ) (policy : Policy) (priority : Option (StateKey → ℕ → ℤ)) (max_states : ℕ)
    {f g : Frontier}
    → construct limit policy priority max_states ≡ ok f
    → max_states ≤ u64_max
    → Reach f g
    → Verdict g (status g)
Reach-status limit policy priority max_states {f} {g} h word r =
    let start = construct-start limit policy priority max_states f h in
    let v =
      Reach-keeps (λ x. IsCounted x × SameLimits max_states x) (Kept-SameLimits max_states) r
        (start-IsCounted f start.0 start.1, (start.2, start.3)) in
    status-Verdict g v.0 (subst (λ x. x ≤ u64_max) (sym v.1.0) word) v.1.1
