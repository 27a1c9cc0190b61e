-- ===== src/Frontier/Reach.antt =====
-- What a run of successful calls reaches.
use det_sim.Base.{ℕ, ◌≡◌, sym, ap, subst, Option, none, some, [], arith, ok, ℤ}
use det_sim.Base.Map.{Ordered, find}
use det_sim.Frontier.State.{StateKey, Policy, Node, Frontier, construct}
use det_sim.Frontier.Invariant.{
  Step, admits, leases, leases_near, commits, loses, Reach, here, next, Step-keeps,
}
use det_sim.Frontier.Order.{InOrder, Kept-InOrder}
use det_sim.Frontier.Distances.{Settles}
use det_sim.Frontier.Calls.{
  SettlesOk, admit-SettlesOk, lease-SettlesOk, lease_local-SettlesOk, commit-SettlesOk,
  worker_lost-SettlesOk,
}

-- The nodes are in key order, and every successor of an expanded node is a node at most one deeper.
pub record IsSettled (f : Frontier) : Type 0 where
  pub ordered : Ordered f.nodes
  pub settled : Settles f []

pub Step-IsSettled : {f g : Frontier} → Step f g → IsSettled f → IsSettled g
Step-IsSettled {f} {g} s v = record {
  ordered = Step-keeps InOrder Kept-InOrder s v.ordered;
  settled = settles s;
}
  where
    settles : Step f g → Settles g []
    settles (admits s d b h) = subst SettlesOk h (admit-SettlesOk f s d v.settled)
    settles (leases w t h) = subst SettlesOk h (lease-SettlesOk f w v.settled)
    settles (leases_near w scorer window t h) =
        subst SettlesOk h (lease_local-SettlesOk f w scorer window v.settled)
    settles (commits t x h) = subst SettlesOk h (commit-SettlesOk f t x v.settled)
    settles (loses w n h) = subst SettlesOk h (worker_lost-SettlesOk f w v.ordered v.settled)

construct-nodes :
    (limit : ℕ) (policy : Policy) (priority : Option (StateKey → ℕ → ℤ)) (max_states : ℕ)
    (f : Frontier)
    → construct limit policy priority max_states ≡ ok f
    → f.nodes ≡ []
unfolding construct
construct-nodes limit policy priority max_states f h = ground arith

empty-IsSettled : (f : Frontier) → f.nodes ≡ [] → IsSettled f
unfolding find
empty-IsSettled f e = record {
  ordered = subst Ordered (sym e) tt;
  settled = λ k n q x. absurd (none_found k n (ap (find k) e) q);
}
  where
    none_found : (k : ℕ) (n : Node) → find k f.nodes ≡ none → find k f.nodes ≡ some n → ⊥
    none_found k n p q = cc

-- After any calls that return, on a frontier as constructed, the nodes are in key order, and every
-- successor of an expanded node is a node, at a depth of at most one more.
pub Reach-IsSettled :
    (limit : ℕ) (policy : Policy) (priority : Option (StateKey → ℕ → ℤ)) (max_states : ℕ)
    {f g : Frontier}
    → construct limit policy priority max_states ≡ ok f
    → Reach f g
    → IsSettled g
Reach-IsSettled limit policy priority max_states {f} h here =
    empty-IsSettled f (construct-nodes limit policy priority max_states f h)
Reach-IsSettled limit policy priority max_states h (next r s) =
    Step-IsSettled s (Reach-IsSettled limit policy priority max_states h r)
