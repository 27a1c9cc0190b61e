-- ===== src/Frontier/Invariant.antt =====
-- An invariant of the frontier, from what the writes of its calls keep.
use det_sim.Base.{
  ℕ, zero, suc, ◌+◌, ◌<◌, ◌≡◌, ◌≢◌, ◌∙◌, refl, subst, Bool, Option, none, some, List, [], ◌∷◌, ◌++◌,
  arith, ok, throws, ◌==◌, Bool-cases, Option-cases, inl, inr, Outcome, ltb, length, ◌&&◌, ℤ,
}
use det_sim.Base.Map.{Map, From, Ordered, find}
use det_sim.Frontier.State.{
  StateKey, WorkerId, Ticket, Expansion, Node, Frontier, Counters, Call, chain, guarded, u64,
  u64_max, ensure_healthy,
}
use det_sim.Frontier.Propagate.{
  Work, propagate, propagate_loop, potential, admit, visit, insert_node, improve, count_duplicate,
  is_new, changes,
}
use det_sim.Frontier.Lease.{
  dispatch, ticket_for, lease, lease_local, lease_near, lease_selected, finalize_lease, select,
  select_local, local_candidates, is_by_priority,
}
use det_sim.Frontier.Commit.{
  commit, check_commit, count_commit, propagate_all, settle, lose, lose_all, worker_lost, depth_at,
}
use det_sim.Frontier.Visit.{Visits, no_room, no_sequence, inserted, kept, improved, visit-Visits}
use det_sim.Frontier.Lost.{AllIn, AllIn-past, AllIn-self, find-lose}
use det_sim.Frontier.Calls.{check_commit-found}

-- A call that changes the frontier and returns.
pub data Step (f : Frontier) : Frontier → Type 0 where
  admits : {g : Frontier} (s : StateKey) (d : ℕ) (b : Bool) → admit f s d ≡ (g, ok b) → Step f g
  leases : {g : Frontier} (w : WorkerId) (t : Option Ticket) → lease f w ≡ (g, ok t) → Step f g
  leases_near :
      {g : Frontier} (w : WorkerId) (scorer : Option (StateKey → ℤ)) (window : ℕ)
      (t : Option Ticket)
      → lease_local f w scorer window ≡ (g, ok t)
      → Step f g
  commits : {g : Frontier} (t : Ticket) (x : Expansion) → commit f t x ≡ (g, ok tt) → Step f g
  loses : {g : Frontier} (w : WorkerId) (n : ℕ) → worker_lost f w ≡ (g, ok n) → Step f g

pub data Reach (f : Frontier) : Frontier → Type 0 where
  here : Reach f f
  next : {g h : Frontier} → Reach f g → Step g h → Reach f h

-- What is asked of an invariant: that each of the writes keeps it.
pub record Kept (P : Frontier → Type 0) : Type 0 where
  pub ordered : (f : Frontier) → P f → Ordered f.nodes
  pub recounted : (f : Frontier) (c : Counters) → P f → P (record f { counters = c })
  pub entered :
      (f : Frontier) (k : StateKey) (d : ℕ)
      → find k f.nodes ≡ none
      → length f.nodes ≢ f.max_states
      → f.next_sequence ≢ u64_max
      → P f
      → P (insert_node f k d)
  pub shortened :
      (f : Frontier) (k : StateKey) (n : Node) (d : ℕ)
      → find k f.nodes ≡ some n
      → d < n.depth
      → P f
      → P (improve f k n d)
  pub dispatched :
      (f : Frontier) (w : WorkerId) (k : StateKey) (n : Node) (c : ℕ)
      → find k f.nodes ≡ some n
      → f.next_lease ≢ u64_max
      → P f
      → P (dispatch f k n (ticket_for f w k n) c)
  pub given_back :
      (f : Frontier) (k : StateKey) (n : Node) (x : Expansion)
      → find k f.nodes ≡ some n
      → P f
      → P (settle f k n x)
  pub lost :
      (w : WorkerId) (k : StateKey) (n : Node) (f : Frontier) (c : ℕ)
      → find k f.nodes ≡ some n
      → P f
      → P (lose w k n (f, c)).0

module _ (P : Frontier → Type 0) (kept_by : Kept P) where
  open kept_by use {ordered, recounted, entered, shortened, dispatched, given_back, lost}

  visit-keeps : {f : Frontier} {k : StateKey} {d : ℕ} {c : Call Work} → Visits f k d c → P f → P c.0
  unfolding count_duplicate
  visit-keeps (no_room h r) p = p
  visit-keeps (no_sequence h r) p = p
  visit-keeps {f} {k} {d} (inserted h r q) p = entered f k d h r q p
  visit-keeps {f} (kept n h l) p = recounted f _ p
  visit-keeps {f} {k} {d} (improved n h l) p =
      shortened (count_duplicate f) k n d h l (recounted f _ p)

  chain-keeps :
      {A B : Type 0} (c : Call A) (k : A → Frontier → Call B)
      → ((a : A) (g : Frontier) → P g → P (k a g).0)
      → P c.0
      → P (chain c k).0
  chain-keeps (g, ok a) k h p = h a g p
  chain-keeps (g, throws z) k h p = p

  loop-keeps : (fuel : ℕ) (work : Work) (f : Frontier) → P f → P (propagate_loop fuel work f).0
  unfolding propagate_loop
  loop-keeps fuel [] f p = p
  loop-keeps zero (w ∷ work) f p = p
  loop-keeps (suc fuel) ((k, d) ∷ work) f p =
      chain-keeps (visit f k d) (λ pushed. propagate_loop fuel (pushed ++ work))
        (λ pushed g. loop-keeps fuel (pushed ++ work) g) (visit-keeps (visit-Visits f k d) p)

  propagate-keeps : (f : Frontier) (k : StateKey) (d : ℕ) → P f → P (propagate f k d).0
  unfolding propagate
  propagate-keeps f k d = loop-keeps (potential f.nodes + 1) ((k, d) ∷ []) f

  guarded-keeps :
      {A B : Type 0} (o : Outcome _ B) (f : Frontier) (k : B → Call A)
      → P f
      → ((b : B) → o ≡ ok b → P (k b).0)
      → P (guarded o f k).0
  guarded-keeps (ok b) f k p h = h b refl
  guarded-keeps (throws e) f k p h = p

  pub admit-keeps : (f : Frontier) (s : StateKey) (d : ℕ) → P f → P (admit f s d).0
  unfolding admit
  admit-keeps f s d p = guarded-keeps (ensure_healthy f) f _ p λ u q.
      elim (Bool-cases (ltb f.limit d)) [
        | inl b ↦ rw b p
        | inr b ↦ elim (Bool-cases (is_new f s && length f.nodes == f.max_states)) [
          | inl r ↦ rw (b, r) p
          | inr r ↦
              rw (b, r)
                (chain-keeps (propagate f s d) (λ v g. (g, ok (changes f s d))) (λ a g x. x)
                  (propagate-keeps f s d p))
        ]
      ]

  lease_selected-keeps :
      (f : Frontier) (w : WorkerId) (o : Option (StateKey × ℕ)) → P f → P (lease_selected f w o).0
  unfolding lease_selected finalize_lease
  lease_selected-keeps f w none p = p
  lease_selected-keeps f w (some (k, n)) p = elim (Option-cases (find k f.nodes)) [
    | inl q ↦ rw (q, finalize_lease) p
    | inr (m, q) ↦ elim (Bool-cases (f.next_lease == u64_max)) [
      | inl r ↦ rw (q, r, finalize_lease) p
      | inr r ↦ rw (q, r, finalize_lease) (dispatched f w k m n q (ground arith) p)
    ]
  ]

  pub lease-keeps : (f : Frontier) (w : WorkerId) → P f → P (lease f w).0
  unfolding lease
  lease-keeps f w p =
      guarded-keeps (ensure_healthy f) f _ p λ u q. lease_selected-keeps f w (select f f.policy) p

  lease_near-keeps :
      (f : Frontier) (w : WorkerId) (scorer : Option (StateKey → ℤ)) (window : ℕ)
      → P f
      → P (lease_near f w scorer window).0
  unfolding lease_near
  lease_near-keeps f w none window p = p
  lease_near-keeps f w (some g) window p = elim (Bool-cases (window == 0)) [
    | inl h ↦ rw h p
    | inr h ↦
        rw h (lease_selected-keeps f w (select_local g window (local_candidates f f.policy)) p)
  ]

  pub lease_local-keeps :
      (f : Frontier) (w : WorkerId) (scorer : Option (StateKey → ℤ)) (window : ℕ)
      → P f
      → P (lease_local f w scorer window).0
  unfolding lease_local
  lease_local-keeps f w scorer window p = guarded-keeps (ensure_healthy f) f _ p λ u q.
      elim (Bool-cases (is_by_priority f.policy)) [
        | inl h ↦ rw h (lease-keeps f w p)
        | inr h ↦ rw h (lease_near-keeps f w scorer window p)
      ]

  propagate_all-keeps :
      (f : Frontier) (s : StateKey) (ss : List StateKey) → P f → P (propagate_all f s ss).0
  unfolding propagate_all
  propagate_all-keeps f s [] p = p
  propagate_all-keeps f s (k ∷ ss) p =
      chain-keeps (propagate f k (u64 (depth_at f s + 1))) (λ u g. propagate_all g s ss)
        (λ u g. propagate_all-keeps g s ss) (propagate-keeps f k (u64 (depth_at f s + 1)) p)

  count_commit-keeps : (c : Call (Unit {0})) → P c.0 → P (count_commit c).0
  count_commit-keeps (g, ok u) p = recounted g _ p
  count_commit-keeps (g, throws e) p = p

  pub commit-keeps : (f : Frontier) (t : Ticket) (x : Expansion) → P f → P (commit f t x).0
  unfolding commit
  commit-keeps f t x p = guarded-keeps (check_commit f t x) f _ p λ node q.
      count_commit-keeps (propagate_all (settle f t.state node x) t.state x.successors) (
        propagate_all-keeps (settle f t.state node x) t.state x.successors
          (given_back f t.state node x (check_commit-found f t x node q) p))

  lose_all-keeps :
      (w : WorkerId) (lo : ℕ) (m : Map Node) (f : Frontier) (c : ℕ)
      → From lo m
      → AllIn f.nodes m
      → P f
      → P (lose_all w m (f, c)).0
  unfolding lose_all
  lose_all-keeps w lo [] f c o a p = p
  lose_all-keeps w lo ((k, node) ∷ m) f c o a p =
      lose_all-keeps w (suc k) m (lose w k node (f, c)).0 (lose w k node (f, c)).1 o.1
        (AllIn-past f.nodes (lose w k node (f, c)).0.nodes k (suc k) m (omega arith) o.1
          (λ i e. find-lose w k node f c i ∙ rw e) a.1)
        (lost w k node f c a.0 p)

  pub worker_lost-keeps : (f : Frontier) (w : WorkerId) → P f → P (worker_lost f w).0
  unfolding worker_lost
  worker_lost-keeps f w p = guarded-keeps (ensure_healthy f) f _ p λ u q.
      recounted (lose_all w f.nodes (f, 0)).0 _
        (lose_all-keeps w 0 f.nodes f 0 (ordered f p) (AllIn-self 0 f.nodes (ordered f p)) p)

  pub Step-keeps : {f g : Frontier} → Step f g → P f → P g
  Step-keeps {f} (admits s d b h) p = subst (λ (c : Call Bool). P c.0) h (admit-keeps f s d p)
  Step-keeps {f} (leases w t h) p =
      subst (λ (c : Call (Option Ticket)). P c.0) h (lease-keeps f w p)
  Step-keeps {f} (leases_near w scorer window t h) p =
      subst (λ (c : Call (Option Ticket)). P c.0) h (lease_local-keeps f w scorer window p)
  Step-keeps {f} (commits t x h) p = subst (λ (c : Call (Unit {0})). P c.0) h (commit-keeps f t x p)
  Step-keeps {f} (loses w n h) p = subst (λ (c : Call ℕ). P c.0) h (worker_lost-keeps f w p)

  pub Reach-keeps : {f g : Frontier} → Reach f g → P f → P g
  Reach-keeps here p = p
  Reach-keeps (next r s) p = Step-keeps s (Reach-keeps r p)
