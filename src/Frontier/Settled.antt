-- ===== src/Frontier/Settled.antt =====
-- Leases and commits keep the depths along edges settled.
use det_sim.Base.{
  ℕ, ◌+◌, ◌≤◌, ◌≡◌, refl, subst, some, List, [], ◌∷◌, map, arith, ok, throws, ◌==◌, if◌then◌else◌,
  Bool-cases, inl, inr,
}
use det_sim.Base.Map.{find, modify, find-modify, apply}
use det_sim.Frontier.State.{
  StateKey, Ticket, Expansion, Node, NodePhase, Frontier, Call, chain, index_add, update, moved,
  write_node, index_remove, u64,
}
use det_sim.Frontier.Propagate.{Work, propagate, potential}
use det_sim.Frontier.Lease.{dispatch, hold}
use det_sim.Frontier.Commit.{
  propagate_all, settle, with_result, without_ticket, committed_phase, phase_of, depth_at,
}
use det_sim.Frontier.Distances.{
  Within, Owed, AllOwed, AllOwed-map, Settles, SettlesAfter, loop-Within, loop-Settles,
}

module _ (f g : Frontier) (key : StateKey) (node : Node) (h : Node → Node)
    (here : find key f.nodes ≡ some node)
    (written : (j : StateKey)
      → find j g.nodes ≡ (if key == j then apply h (find j f.nodes) else find j f.nodes))
    (level : (h node).depth ≡ node.depth) where
  pub written-Within : (s : StateKey) (e : ℕ) → Within f s e → Within g s e
  written-Within s e x = elim (Bool-cases (key == s)) [
    | inl q ↦ (h node, ground (arith, written s), ground arith)
    | inr q ↦ (x.0, ground (arith, written s), x.2)
  ]

  -- One node is written, and keeps its depth: what its new successors are owed is all that is new.
  pub written-Settles :
      (w : Work)
      → ((h node).phase ≡ NodePhase.expanded → AllOwed g w (node.depth + 1) (h node).successors)
      → Settles f []
      → Settles g w
  written-Settles w own c j m e x = elim (Bool-cases (key == j)) [
    | inl q ↦
        let same : m ≡ h node = ground (arith, written j) in rw (same, level) (own (ground arith))
    | inr q ↦
        AllOwed-map f g [] w (m.depth + 1) m.successors kept (c j m (ground (arith, written j)) x)
  ]
    where
      kept : (s : StateKey) → Owed f [] s (m.depth + 1) → Owed g w s (m.depth + 1)
      kept s (inl y) = inl (written-Within s (m.depth + 1) y)
      kept s (inr y) = absurd y

pub find-dispatch :
    (f : Frontier) (key : StateKey) (node : Node) (t : Ticket) (n : ℕ) (j : StateKey)
    → find j (dispatch f key node t n).nodes ≡ (
        if key == j
        then apply (λ m. hold t (moved NodePhase.inflight node.depth m)) (find j f.nodes)
        else find j f.nodes)
unfolding dispatch update index_add write_node index_remove
find-dispatch f key node t n j = ground (
  arith,
  find-modify key j (hold t) (modify key (moved NodePhase.inflight node.depth) f.nodes),
  find-modify key j (moved NodePhase.inflight node.depth) f.nodes,
)

pub dispatch-Settles :
    (f : Frontier) (key : StateKey) (node : Node) (t : Ticket) (n : ℕ)
    → find key f.nodes ≡ some node
    → Settles f []
    → Settles (dispatch f key node t n) []
dispatch-Settles f key node t n e =
    written-Settles f (dispatch f key node t n) key node
      (λ m. hold t (moved NodePhase.inflight node.depth m)) e (find-dispatch f key node t n) refl []
      (λ q. cc)

abbrev pub settled_node : Frontier → Node → Expansion → Node → Node
settled_node f node x n =
    without_ticket (moved (committed_phase f node (phase_of x.kind)) node.depth (with_result x n))

pub find-settle :
    (f : Frontier) (key : StateKey) (node : Node) (x : Expansion) (j : StateKey)
    → find j (settle f key node x).nodes
      ≡ (if key == j then apply (settled_node f node x) (find j f.nodes) else find j f.nodes)
unfolding settle update index_add write_node index_remove
find-settle f key node x j =
    let one = modify key (with_result x) f.nodes in
    let moving = moved (committed_phase f node (phase_of x.kind)) node.depth in
    ground (
      arith,
      find-modify key j without_ticket (modify key moving one),
      find-modify key j moving one,
      find-modify key j (with_result x) f.nodes,
    )

owed_by_map : (g : Frontier) (e : ℕ) (ss : List StateKey) → AllOwed g (map (λ s. (s, e)) ss) e ss
owed_by_map g e [] = tt
owed_by_map g e (s ∷ ss) = (
  inr (inl (refl, omega arith)),
  AllOwed-map g g (map (λ t. (t, e)) ss) ((s, e) ∷ map (λ t. (t, e)) ss) e ss later
      (owed_by_map g e ss),
)
  where
    later :
        (t : StateKey)
        → Owed g (map (λ t. (t, e)) ss) t e
        → Owed g ((s, e) ∷ map (λ t. (t, e)) ss) t e
    later t (inl y) = inl y
    later t (inr y) = inr (inr y)

pub settle-Settles :
    (f : Frontier) (key : StateKey) (node : Node) (x : Expansion)
    → find key f.nodes ≡ some node
    → Settles f []
    → Settles (settle f key node x) (map (λ s. (s, node.depth + 1)) x.successors)
settle-Settles f key node x e =
    written-Settles f (settle f key node x) key node (settled_node f node x) e
      (find-settle f key node x) refl (map (λ s. (s, node.depth + 1)) x.successors)
      (λ q. owed_by_map (settle f key node x) (node.depth + 1) x.successors)

pub settle-Within :
    (f : Frontier) (key : StateKey) (node : Node) (x : Expansion) (s : StateKey) (e : ℕ)
    → find key f.nodes ≡ some node
    → Within f s e
    → Within (settle f key node x) s e
settle-Within f key node x s e h =
    written-Within f (settle f key node x) key node (settled_node f node x) h
      (find-settle f key node x) refl s e

-- Work at a smaller distance pays as much.
sooner-Settles :
    (f : Frontier) (k : StateKey) (d e : ℕ) (w : Work)
    → d ≤ e
    → Settles f ((k, e) ∷ w)
    → Settles f ((k, d) ∷ w)
sooner-Settles f k d e w l c j m q x =
    AllOwed-map f f ((k, e) ∷ w) ((k, d) ∷ w) (m.depth + 1) m.successors sooner (c j m q x)
  where
    sooner :
        (s : StateKey) → Owed f ((k, e) ∷ w) s (m.depth + 1) → Owed f ((k, d) ∷ w) s (m.depth + 1)
    sooner s (inl y) = inl y
    sooner s (inr (inl (p, b))) = inr (inl (p, omega arith))
    sooner s (inr (inr y)) = inr (inr y)

pub propagate-Settles :
    (f : Frontier) (k : StateKey) (d : ℕ) (w : Work)
    → Settles f ((k, d) ∷ w)
    → SettlesAfter w (propagate f k d)
unfolding propagate
propagate-Settles f k d w c = loop-Settles (potential f.nodes + 1) ((k, d) ∷ []) w f c

propagate-Within :
    (f : Frontier) (k : StateKey) (d : ℕ) (s : StateKey) (e : ℕ)
    → Within f s e
    → Within (propagate f k d).0 s e
unfolding propagate
propagate-Within f k d s e x = loop-Within (potential f.nodes + 1) ((k, d) ∷ []) f s e x

depth_at-le : (f : Frontier) (s : StateKey) (e : ℕ) → Within f s e → depth_at f s ≤ e
depth_at-le f s e (m, q, l) = ground (arith, q, l)

pub propagate_all-Settles :
    (f : Frontier) (s : StateKey) (e : ℕ) (ss : List StateKey)
    → Within f s e
    → Settles f (map (λ t. (t, e + 1)) ss)
    → SettlesAfter [] (propagate_all f s ss)
unfolding propagate_all
propagate_all-Settles f s e [] x c = λ h. c
propagate_all-Settles f s e (k ∷ ss) x c =
    let d = u64 (depth_at f s + 1) in
    go d (propagate f k d) refl
      (propagate-Settles f k d (map (λ t. (t, e + 1)) ss) (
        sooner-Settles f k d (e + 1) (map (λ t. (t, e + 1)) ss) (omega (arith, depth_at-le f s e x))
          c))
      (λ g. propagate_all-Settles g s e ss)
  where
    go :
        (d : ℕ) (c : Call (Unit {0}))
        → propagate f k d ≡ c
        → SettlesAfter (map (λ t. (t, e + 1)) ss) c
        → ((g : Frontier)
            → Within g s e
            → Settles g (map (λ t. (t, e + 1)) ss)
            → SettlesAfter [] (propagate_all g s ss))
        → SettlesAfter [] (chain (propagate f k d) (λ u g. propagate_all g s ss))
    go d (g, ok u) q a ih = rw q (
        ih g (subst (λ (c : Call (Unit {0})). Within c.0 s e) q (propagate-Within f k d s e x))
          (a refl))
    go d (g, throws z) q a ih = rw q (λ h. cc)
