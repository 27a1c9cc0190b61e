-- ===== src/Frontier/Holders.antt =====
-- Which worker holds which node, src/core/search/frontier.cpp, and what a write of one node keeps of it.
use det_sim.Base.{
  ℕ, ◌≤◌, ◌<◌, ◌≡◌, ◌≢◌, sym, ap, subst, ◌∙◌, ℕ_discrete, inl, inr, ◌⊎◌, Option, some, none, arith,
  ◌==◌, if◌then◌else◌,
}
use det_sim.Base.Map.{find, apply}
use det_sim.Frontier.State.{StateKey, Ticket, Node, NodePhase, Frontier}
use det_sim.Frontier.Order.{InOrder}

-- What a node holds: a ticket for its own state, numbered up to `top`, exactly when it is in flight.
abbrev pub Holds : ℕ → StateKey → NodePhase → Option Ticket → Type 0
Holds top k p none = p ≢ NodePhase.inflight
Holds top k p (some t) = (p ≡ NodePhase.inflight) × (t.state ≡ k) × (t.lease_id ≤ top)

-- Each node in flight holds a ticket for itself, no other node holds one, and no two nodes hold
-- tickets of one number.
pub record IsLeased (f : Frontier) : Type 0 where
  pub in_order : InOrder f
  pub holds :
      (k : StateKey) (n : Node) → find k f.nodes ≡ some n → Holds f.next_lease k n.phase n.ticket
  pub distinct :
      (j k : StateKey) (m n : Node) (s t : Ticket)
      → find j f.nodes ≡ some m
      → find k f.nodes ≡ some n
      → m.ticket ≡ some s
      → n.ticket ≡ some t
      → s.lease_id ≡ t.lease_id
      → j ≡ k

Holds-mono :
    (a b : ℕ) (k : StateKey) (p : NodePhase) (o : Option Ticket)
    → a ≤ b
    → Holds a k p o
    → Holds b k p o
Holds-mono a b k p none l h = h
Holds-mono a b k p (some t) l h = (h.0, h.1, omega arith)

Holds-bound :
    (a : ℕ) (k : StateKey) (p : NodePhase) (o : Option Ticket) (t : Ticket)
    → Holds a k p o
    → o ≡ some t
    → t.lease_id ≤ a
Holds-bound a k p none t h e = absurd (ground arith)
Holds-bound a k p (some s) t h e = ground arith

-- One node is written, and its ticket is none, the old one, or one with a new number.
module _ (f g : Frontier) (key : StateKey) (node : Node) (h : Node → Node)
    (here : find key f.nodes ≡ some node)
    (written : (j : StateKey)
      → find j g.nodes ≡ (if key == j then apply h (find j f.nodes) else find j f.nodes))
    (later : f.next_lease ≤ g.next_lease)
    (fits : Holds g.next_lease key (h node).phase (h node).ticket)
    (fresh : (t : Ticket)
      → (h node).ticket ≡ some t
      → (node.ticket ≡ some t) ⊎ (f.next_lease < t.lease_id)) where
  at_key : (j : StateKey) (m : Node) → key ≡ j → find j g.nodes ≡ some m → h node ≡ m
  at_key j m q e = ground (arith, written j)

  off_key : (j : StateKey) (m : Node) → key ≢ j → find j g.nodes ≡ some m → find j f.nodes ≡ some m
  off_key j m n e = ground (arith, written j)

  -- A ticket of the written node is not on another node.
  apart :
      IsLeased f
      → (j : StateKey) (m : Node) (s t : Ticket) → key ≢ j
      → find j f.nodes ≡ some m
      → (h node).ticket ≡ some s
      → m.ticket ≡ some t
      → s.lease_id ≢ t.lease_id
  apart v j m s t n e p q i = elim (fresh s p) [
    | inl o ↦ n (v.distinct key j node m s t here e o q i)
    | inr l ↦
        absurd
          (omega (arith, l, i, Holds-bound f.next_lease j m.phase m.ticket t (v.holds j m e) q))
  ]

  pub written-IsLeased : IsLeased f → InOrder g → IsLeased g
  written-IsLeased v o = record {
    in_order = o;
    holds = λ k n e. elim (ℕ_discrete key k) [
      | yes q ↦
          subst (λ x. Holds g.next_lease x n.phase n.ticket) q
            (subst (λ x. Holds g.next_lease key x.phase x.ticket) (at_key k n q e) fits)
      | no q ↦
          Holds-mono f.next_lease g.next_lease k n.phase n.ticket later
            (v.holds k n (off_key k n q e))
    ];
    distinct = λ j k m n s t d e p q i. elim (ℕ_discrete key j) [
      | yes a ↦ elim (ℕ_discrete key k) [
        | yes b ↦ sym a ∙ b
        | no b ↦
            absurd
              (apart v k n s t b (off_key k n b e) (ap (λ x. x.ticket) (at_key j m a d) ∙ p) q i)
      ]
      | no a ↦ elim (ℕ_discrete key k) [
        | yes b ↦ absurd (
            apart v j m t s a (off_key j m a d) (ap (λ x. x.ticket) (at_key k n b e) ∙ q) p (sym i))
        | no b ↦ v.distinct j k m n s t (off_key j m a d) (off_key k n b e) p q i
      ]
    ];
  }
