-- ===== src/Frontier/Verdict.antt =====
-- What Frontier::status says of the nodes.
use det_sim.Base.{
  ℕ, suc, ◌≤◌, ◌<◌, ◌≡◌, ◌≢◌, refl, true, false, Option, some, [], ◌∷◌, arith, Bool-cases, inl, inr,
  ◌⊎◌, length, ok, ℤ,
}
use det_sim.Base.Map.{Map, From, find}
use det_sim.Frontier.State.{
  StateKey, Policy, Node, NodePhase, Status, Frontier, u64_max, ◌==ᴾ◌, construct,
}
use det_sim.Frontier.Commit.{status, some_in}
use det_sim.Frontier.Counts.{IsCounted, count}

-- A node, or no node, of the frontier is in the phase.
abbrev pub Has : Frontier → NodePhase → Type 0
Has f p = (k : StateKey) × (n : Node) × (find k f.nodes ≡ some n) × (n.phase ≡ p)

abbrev pub Lacks : Frontier → NodePhase → Type 0
Lacks f p = (k : StateKey) (n : Node) → find k f.nodes ≡ some n → n.phase ≢ p

count-zero :
    (p : NodePhase) (m : Map Node) (k : StateKey) (n : Node)
    → count p m ≡ 0
    → find k m ≡ some n
    → n.phase ≢ p
unfolding count find
count-zero p [] k n c e q = cc
count-zero p ((j, w) ∷ m) k n c e q = ground (arith, count-zero p m k n)

phase_index-injective : (p q : NodePhase) → (p ==ᴾ q) ≡ true → p ≡ q
phase_index-injective p q h = ground arith

count-pos :
    (p : NodePhase) (lo : ℕ) (m : Map Node)
    → From lo m
    → 0 < count p m
    → (k : StateKey) × (n : Node) × (find k m ≡ some n) × (n.phase ≡ p) × (lo ≤ k)
unfolding count find
count-pos p lo [] o h = absurd (omega arith)
count-pos p lo ((j, w) ∷ m) o h = elim (Bool-cases (w.phase ==ᴾ p)) [
  | inl q ↦ (j, w, ground arith, phase_index-injective w.phase p q, o.0)
  | inr q ↦
      let r = count-pos p (suc j) m o.1 (ground arith) in
      (r.0, r.1, ground (arith, r.2, r.4), r.3, omega arith)
]

count-le : (p : NodePhase) (m : Map Node) → count p m ≤ length m
unfolding count
count-le p [] = omega arith
count-le p ((j, w) ∷ m) = ground (arith, count-le p m)

module _ (f : Frontier) (v : IsCounted f) (word : f.max_states ≤ u64_max) where
  exact : (p : NodePhase) → f.phase_counts p ≡ count p f.nodes
  exact p = omega (arith, v.counts p, count-le p f.nodes, v.room)

  some_in-Has : (p : NodePhase) → some_in f p ≡ true → Has f p
  some_in-Has p h =
      let r = count-pos p 0 f.nodes v.in_order (ground (arith, exact p)) in (r.0, r.1, r.2, r.3)

  some_in-Lacks : (p : NodePhase) → some_in f p ≡ false → Lacks f p
  some_in-Lacks p h k n e = count-zero p f.nodes k n (ground (arith, exact p)) e

-- The verdicts, each with what it means. They exclude one another.
pub data Verdict (f : Frontier) : Status → Type 0 where
  failed : Has f NodePhase.failure → Verdict f Status.failed
  running :
      Lacks f NodePhase.failure
      → Has f NodePhase.pending ⊎ Has f NodePhase.inflight
      → Verdict f Status.running
  bounded :
      Lacks f NodePhase.failure
      → Lacks f NodePhase.pending
      → Lacks f NodePhase.inflight
      → Has f NodePhase.depth_cut ⊎ Has f NodePhase.model_budget
      → Verdict f Status.bounded
  complete :
      ((k : StateKey) (n : Node)
        → find k f.nodes ≡ some n
        → (n.phase ≡ NodePhase.expanded) ⊎ (n.phase ≡ NodePhase.terminal))
      → Verdict f Status.complete

remaining :
    (p : NodePhase)
    → p ≢ NodePhase.failure
    → p ≢ NodePhase.pending
    → p ≢ NodePhase.inflight
    → p ≢ NodePhase.depth_cut
    → p ≢ NodePhase.model_budget
    → (p ≡ NodePhase.expanded) ⊎ (p ≡ NodePhase.terminal)
remaining NodePhase.pending a b c d e = absurd (b refl)
remaining NodePhase.inflight a b c d e = absurd (c refl)
remaining NodePhase.expanded a b c d e = inl refl
remaining NodePhase.terminal a b c d e = inr refl
remaining NodePhase.depth_cut a b c d e = absurd (d refl)
remaining NodePhase.model_budget a b c d e = absurd (e refl)
remaining NodePhase.failure a b c d e = absurd (a refl)

pub status-Verdict :
    (f : Frontier)
    → IsCounted f
    → f.max_states ≤ u64_max
    → f.poisoned ≡ false
    → Verdict f (status f)
unfolding status
status-Verdict f v word healthy =
    let has = some_in-Has f v word in
    let lacks = some_in-Lacks f v word in
    elim (Bool-cases (some_in f NodePhase.failure)) [
      | inl a ↦ rw (healthy, a) (failed (has NodePhase.failure a))
      | inr a ↦ elim (Bool-cases (some_in f NodePhase.pending)) [
        | inl b ↦
            rw (healthy, a, b) (running (lacks NodePhase.failure a) (inl (has NodePhase.pending b)))
        | inr b ↦ elim (Bool-cases (some_in f NodePhase.inflight)) [
          | inl c ↦
              rw (healthy, a, b, c)
                (running (lacks NodePhase.failure a) (inr (has NodePhase.inflight c)))
          | inr c ↦ elim (Bool-cases (some_in f NodePhase.depth_cut)) [
            | inl d ↦
                rw (healthy, a, b, c, d)
                  (bounded (lacks NodePhase.failure a) (lacks NodePhase.pending b)
                    (lacks NodePhase.inflight c) (inl (has NodePhase.depth_cut d)))
            | inr d ↦ elim (Bool-cases (some_in f NodePhase.model_budget)) [
              | inl e ↦
                  rw (healthy, a, b, c, d, e)
                    (bounded (lacks NodePhase.failure a) (lacks NodePhase.pending b)
                      (lacks NodePhase.inflight c) (inr (has NodePhase.model_budget e)))
              | inr e ↦
                  rw (healthy, a, b, c, d, e)
                    (complete λ k n q.
                      remaining n.phase (lacks NodePhase.failure a k n q)
                        (lacks NodePhase.pending b k n q) (lacks NodePhase.inflight c k n q)
                        (lacks NodePhase.depth_cut d k n q) (lacks NodePhase.model_budget e k n q))
            ]
          ]
        ]
      ]
    ]

pub construct-start :
    (limit : ℕ) (policy : Policy) (priority : Option (StateKey → ℕ → ℤ)) (max_states : ℕ)
    (f : Frontier)
    → construct limit policy priority max_states ≡ ok f
    → (f.nodes ≡ [])
      × ((p : NodePhase) → f.phase_counts p ≡ 0)
      × (f.max_states ≡ max_states)
      × (f.poisoned ≡ false)
unfolding construct
construct-start limit policy priority max_states f h =
    (ground arith, λ p. ground arith, ground arith, ground arith)

pub start-IsCounted :
    (f : Frontier) → f.nodes ≡ [] → ((p : NodePhase) → f.phase_counts p ≡ 0) → IsCounted f
unfolding count
start-IsCounted f e z = record {
  in_order = rw e tt;
  counts = λ p. ground (arith, z p, e);
  room = rw e (omega arith);
}
