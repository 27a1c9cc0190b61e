-- ===== src/Frontier/Lost.antt =====
-- worker_lost: each node that the worker held is pending again, and the others are left alone.
use det_sim.Base.{
  ℕ, suc, ◌<◌, ◌≡◌, ◌∙◌, false, some, [], ◌∷◌, arith, ◌==◌, if◌then◌else◌, Bool-cases, inl, inr,
}
use det_sim.Base.Map.{Map, From, find, modify, find-modify, apply}
use det_sim.Frontier.State.{
  StateKey, WorkerId, Node, NodePhase, Frontier, index_add, update, moved, write_node, index_remove,
}
use det_sim.Frontier.Commit.{lose, lose_all, held_by, without_ticket}
use det_sim.Frontier.Distances.{Settles}
use det_sim.Frontier.Settled.{written-Settles}

-- The entries of `m` are those of the map `whole` at their keys.
abbrev pub AllIn : Map Node → Map Node → Type 0
AllIn whole [] = Unit {0}
AllIn whole ((j, n) ∷ m) = (find j whole ≡ some n) × AllIn whole m

-- What agrees off `j` agrees on the entries past `j`.
pub AllIn-past :
    (whole other : Map Node) (j lo : ℕ) (m : Map Node)
    → j < lo
    → From lo m
    → ((i : ℕ) → (j == i) ≡ false → find i other ≡ find i whole)
    → AllIn whole m
    → AllIn other m
AllIn-past whole other j lo [] l o h a = tt
AllIn-past whole other j lo ((i, n) ∷ m) l o h a =
    (ground (arith, h i, a.0), AllIn-past whole other j (suc i) m (omega arith) o.1 h a.1)

pub AllIn-self : (lo : ℕ) (m : Map Node) → From lo m → AllIn m m
unfolding find
AllIn-self lo [] o = tt
AllIn-self lo ((j, n) ∷ m) o = (
  ground arith,
  AllIn-past m ((j, n) ∷ m) j (suc j) m (omega arith) o.1 (λ i e. rw e) (AllIn-self (suc j) m o.1),
)

abbrev pub back : WorkerId → Node → Node → Node
back w node n =
    if held_by w node.ticket then without_ticket (moved NodePhase.pending node.depth n) else n

pub find-lose :
    (w : WorkerId) (k : StateKey) (node : Node) (f : Frontier) (c : ℕ) (j : StateKey)
    → find j (lose w k node (f, c)).0.nodes
      ≡ (if k == j then apply (back w node) (find j f.nodes) else find j f.nodes)
unfolding lose update index_add write_node index_remove
find-lose w k node f c j = ground (
  arith,
  find-modify k j without_ticket (modify k (moved NodePhase.pending node.depth) f.nodes),
  find-modify k j (moved NodePhase.pending node.depth) f.nodes,
)

lose-Settles :
    (w : WorkerId) (k : StateKey) (node : Node) (f : Frontier) (c : ℕ)
    → find k f.nodes ≡ some node
    → Settles f []
    → Settles (lose w k node (f, c)).0 []
lose-Settles w k node f c e s = elim (Bool-cases (held_by w node.ticket)) [
  | inl h ↦
      written-Settles f (lose w k node (f, c)).0 k node (back w node) e (find-lose w k node f c)
        (rw h) [] (rw h (λ q. cc)) s
  | inr h ↦ unfold lose in rw h s
]

pub lose_all-Settles :
    (w : WorkerId) (lo : ℕ) (m : Map Node) (f : Frontier) (c : ℕ)
    → From lo m
    → AllIn f.nodes m
    → Settles f []
    → Settles (lose_all w m (f, c)).0 []
unfolding lose_all
lose_all-Settles w lo [] f c o a s = s
lose_all-Settles w lo ((k, node) ∷ m) f c o a s =
    lose_all-Settles w (suc k) m (lose w k node (f, c)).0 (lose w k node (f, c)).1 o.1
      (AllIn-past f.nodes (lose w k node (f, c)).0.nodes k (suc k) m (omega arith) o.1
        (λ i e. find-lose w k node f c i ∙ rw e) a.1)
      (lose-Settles w k node f c a.0 s)
