-- ===== src/Frontier/Calls.antt =====
-- Each call that returns leaves the depths along edges settled.
use det_sim.Base.{
  ℕ, ◌+◌, ◌≡◌, refl, Option, none, some, [], ◌∷◌, arith, ok, throws, ◌==◌, Bool-cases, Option-cases,
  inl, inr, Outcome-cases, ℤ, ltb, length, ◌&&◌,
}
use det_sim.Base.Map.{Ordered, find}
use det_sim.Frontier.State.{
  StateKey, WorkerId, Ticket, Expansion, Node, Frontier, Call, chain, u64_max, ensure_healthy,
}
use det_sim.Frontier.Propagate.{propagate, admit, changes, is_new}
use det_sim.Frontier.Lease.{
  lease_near, is_by_priority, select_local, local_candidates, ticket_for, lease, lease_local,
  lease_selected, finalize_lease, select,
}
use det_sim.Frontier.Commit.{
  commit, check_commit, leased_node, count_commit, propagate_all, settle, worker_lost,
}
use det_sim.Frontier.Lost.{AllIn-self, lose_all-Settles}
use det_sim.Frontier.Distances.{Settles, AllOwed-map, SettlesAfter, Owed}
use det_sim.Frontier.Settled.{
  dispatch-Settles, settle-Settles, propagate-Settles, propagate_all-Settles, settle-Within,
}

-- When the call returns, the depths that it leaves are settled.
abbrev pub SettlesOk : {A : Type 0} → Call A → Type 0
SettlesOk (g, ok a) = Settles g []
SettlesOk (g, throws e) = Unit {0}

leased_node-found :
    (f : Frontier) (t : Ticket) (n : Node) → leased_node f t ≡ ok n → find t.state f.nodes ≡ some n
unfolding leased_node
leased_node-found f t n h = ground arith

pub check_commit-found :
    (f : Frontier) (t : Ticket) (x : Expansion) (n : Node)
    → check_commit f t x ≡ ok n
    → find t.state f.nodes ≡ some n
unfolding check_commit
check_commit-found f t x n h = leased_node-found f t n (ground arith)

count_commit-SettlesOk : (c : Call (Unit {0})) → SettlesAfter [] c → SettlesOk (count_commit c)
count_commit-SettlesOk (g, ok u) a = a refl
count_commit-SettlesOk (g, throws e) a = tt

pub commit-SettlesOk :
    (f : Frontier) (t : Ticket) (x : Expansion) → Settles f [] → SettlesOk (commit f t x)
unfolding commit
commit-SettlesOk f t x c = elim (Outcome-cases (check_commit f t x)) [
  | inr (e, q) ↦ rw q tt
  | inl (node, q) ↦
      let found = check_commit-found f t x node q in
      rw q (
        count_commit-SettlesOk (propagate_all (settle f t.state node x) t.state x.successors) (
          propagate_all-Settles (settle f t.state node x) t.state node.depth x.successors
            (settle-Within f t.state node x t.state node.depth found (node, found, omega arith))
            (settle-Settles f t.state node x found c)))
]

new-Settles : (f : Frontier) (s : StateKey) (d : ℕ) → Settles f [] → Settles f ((s, d) ∷ [])
new-Settles f s d c j m e x =
    AllOwed-map f f [] ((s, d) ∷ []) (m.depth + 1) m.successors more (c j m e x)
  where
    more : (t : StateKey) → Owed f [] t (m.depth + 1) → Owed f ((s, d) ∷ []) t (m.depth + 1)
    more t (inl y) = inl y
    more t (inr y) = absurd y

chain-SettlesOk :
    {A : Type 0} (c : Call (Unit {0})) (a : A)
    → SettlesAfter [] c
    → SettlesOk (chain c (λ v g. (g, ok a)))
chain-SettlesOk (g, ok u) a h = h refl
chain-SettlesOk (g, throws e) a h = tt

pub admit-SettlesOk : (f : Frontier) (s : StateKey) (d : ℕ) → Settles f [] → SettlesOk (admit f s d)
unfolding admit
admit-SettlesOk f s d c =
    let rest =
      chain-SettlesOk (propagate f s d) (changes f s d)
        (propagate-Settles f s d [] (new-Settles f s d c)) in
    elim (Outcome-cases (ensure_healthy f)) [
      | inr (e, q) ↦ rw q tt
      | inl (u, q) ↦ elim (Bool-cases (ltb f.limit d)) [
        | inl b ↦ rw (q, b) tt
        | inr b ↦ elim (Bool-cases (is_new f s && length f.nodes == f.max_states)) [
          | inl r ↦ rw (q, b, r) tt
          | inr r ↦ rw (q, b, r) rest
        ]
      ]
    ]

lease_selected-SettlesOk :
    (f : Frontier) (w : WorkerId) (o : Option (StateKey × ℕ))
    → Settles f []
    → SettlesOk (lease_selected f w o)
unfolding lease_selected finalize_lease
lease_selected-SettlesOk f w none c = c
lease_selected-SettlesOk f w (some (k, n)) c = elim (Option-cases (find k f.nodes)) [
  | inl q ↦ rw (q, finalize_lease) tt
  | inr (m, q) ↦ elim (Bool-cases (f.next_lease == u64_max)) [
    | inl r ↦ rw (q, r, finalize_lease) tt
    | inr r ↦ rw (q, r, finalize_lease) (dispatch-Settles f k m (ticket_for f w k m) n q c)
  ]
]

pub lease-SettlesOk : (f : Frontier) (w : WorkerId) → Settles f [] → SettlesOk (lease f w)
unfolding lease
lease-SettlesOk f w c = elim (Outcome-cases (ensure_healthy f)) [
  | inr (e, q) ↦ rw q tt
  | inl (u, q) ↦ rw q (lease_selected-SettlesOk f w (select f f.policy) c)
]

lease_near-SettlesOk :
    (f : Frontier) (w : WorkerId) (scorer : Option (StateKey → ℤ)) (window : ℕ)
    → Settles f []
    → SettlesOk (lease_near f w scorer window)
unfolding lease_near
lease_near-SettlesOk f w none window c = tt
lease_near-SettlesOk f w (some g) window c = elim (Bool-cases (window == 0)) [
  | inl h ↦ rw h tt
  | inr h ↦
      rw h (lease_selected-SettlesOk f w (select_local g window (local_candidates f f.policy)) c)
]

pub lease_local-SettlesOk :
    (f : Frontier) (w : WorkerId) (scorer : Option (StateKey → ℤ)) (window : ℕ)
    → Settles f []
    → SettlesOk (lease_local f w scorer window)
unfolding lease_local
lease_local-SettlesOk f w scorer window c = elim (Outcome-cases (ensure_healthy f)) [
  | inr (e, q) ↦ rw q tt
  | inl (u, q) ↦ elim (Bool-cases (is_by_priority f.policy)) [
    | inl h ↦ rw (q, h) (lease-SettlesOk f w c)
    | inr h ↦ rw (q, h) (lease_near-SettlesOk f w scorer window c)
  ]
]

pub worker_lost-SettlesOk :
    (f : Frontier) (w : WorkerId) → Ordered f.nodes → Settles f [] → SettlesOk (worker_lost f w)
unfolding worker_lost
worker_lost-SettlesOk f w o c = elim (Outcome-cases (ensure_healthy f)) [
  | inr (e, q) ↦ rw q tt
  | inl (u, q) ↦ rw q (lose_all-Settles w 0 f.nodes f 0 o (AllIn-self 0 f.nodes o) c)
]
