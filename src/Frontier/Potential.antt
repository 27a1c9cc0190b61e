-- ===== src/Frontier/Potential.antt =====
-- Frontier::propagate ends: the fuel of the model is enough.
use native.Mathlib.Nat.{mul-zero}
use det_sim.Base.{
  ap, ℕ, zero, suc, ◌+◌, ◌*◌, ◌≤◌, ◌≡◌, ◌≢◌, refl, none, some, [], ◌∷◌, ◌++◌, arith, ok, throws,
  length, length-append, length-map, Bool-cases, inl, inr,
}
use det_sim.Base.Map.{Map, find, put, modify}
use det_sim.Frontier.State.{
  StateKey, Node, NodePhase, Frontier, FrontierError, Call, no_fuel, index_add, update, moved,
  write_node, index_remove, u64, ◌==ᴾ◌,
}
use det_sim.Frontier.Visit.{Visits, no_room, no_sequence, inserted, kept, improved, visit-Visits}
use det_sim.Frontier.Propagate.{
  Work, visit, insert_node, improve, count_duplicate, propagate, propagate_loop, potential,
  push_successors, new_node, after_cut,
}

potential-put :
    (k : StateKey) (n : Node) (m : Map Node)
    → n.successors ≡ []
    → find k m ≡ none
    → potential (put k n m) ≡ potential m
unfolding potential put find
potential-put k n [] e h = rw e (grind arith)
potential-put k n ((j, w) ∷ m) e h =
    ground (arith, potential-put k n m e, ap length e, mul-zero n.depth)

potential-moved :
    (k : StateKey) (p : NodePhase) (d : ℕ) (n : Node) (m : Map Node)
    → find k m ≡ some n
    → potential (modify k (moved p d) m) + n.depth * length n.successors
      ≡ potential m + d * length n.successors
unfolding potential modify find
potential-moved k p d n [] h = ground arith
potential-moved k p d n ((j, w) ∷ m) h = ground (arith, potential-moved k p d n m)

insert_node-potential :
    (f : Frontier) (k : StateKey) (d : ℕ)
    → find k f.nodes ≡ none
    → potential (insert_node f k d).nodes ≡ potential f.nodes
unfolding insert_node index_add
insert_node-potential f k d h = potential-put k (new_node f d) f.nodes refl h

improve-potential :
    (f : Frontier) (k : StateKey) (n : Node) (d : ℕ)
    → find k f.nodes ≡ some n
    → potential (improve f k n d).nodes + n.depth * length n.successors
      ≡ potential f.nodes + d * length n.successors
unfolding improve update index_add write_node index_remove
improve-potential f k n d h = potential-moved k (after_cut n.phase) d n f.nodes h

push-length : (n : Node) (d : ℕ) → length (push_successors n d) ≤ length n.successors
push-length n d = elim (Bool-cases (n.phase ==ᴾ NodePhase.expanded)) [
  | inl h ↦ rw h (omega (arith, length-map {B = StateKey × ℕ} n.successors (λ s. (s, u64 (d + 1)))))
  | inr h ↦ rw h (omega arith)
]

-- What a round pushes is paid for by the potential.
pub visit-potential :
    {f : Frontier} {k : StateKey} {d : ℕ} {g : Frontier} {pushed : Work}
    → Visits f k d (g, ok pushed)
    → potential g.nodes + length pushed ≤ potential f.nodes
unfolding count_duplicate
visit-potential {f} {k = k} {d = d} (inserted h r s) = omega (arith, insert_node-potential f k d h)
visit-potential {f} (kept n h l) = omega arith
visit-potential {f} {k = k} {d = d} (improved n h l) =
    grind (arith, improve-potential (count_duplicate f) k n d h, push-length n d)

visit-ne-no_fuel :
    {f : Frontier} {k : StateKey} {d : ℕ} {g : Frontier} {e : FrontierError}
    → Visits f k d (g, throws e)
    → e ≢ no_fuel
visit-ne-no_fuel (no_room h r) = λ q. cc
visit-ne-no_fuel (no_sequence h r) = λ q. cc

abbrev Fuelled : Call (Unit {0}) → Type 0
Fuelled c = c.1 ≢ throws no_fuel

loop_step :
    (fuel : ℕ) (work : Work) (f : Frontier) (k : StateKey) (d : ℕ) (c : Call Work)
    → visit f k d ≡ c
    → Visits f k d c
    → ((g : Frontier) (w : Work)
        → potential g.nodes + length w ≤ fuel
        → Fuelled (propagate_loop fuel w g))
    → potential f.nodes + length work ≤ fuel
    → Fuelled (propagate_loop (suc fuel) ((k, d) ∷ work) f)
unfolding propagate_loop
loop_step fuel work f k d (g, throws e) q v ih h =
    rw (q, propagate_loop) (λ p. visit-ne-no_fuel v (cc))
loop_step fuel work f k d (g, ok pushed) q v ih h =
    rw (q, propagate_loop)
      (ih g (pushed ++ work) (omega (arith, visit-potential v, length-append pushed work)))

propagate_loop-Fuelled :
    (fuel : ℕ) (work : Work) (f : Frontier)
    → potential f.nodes + length work ≤ fuel
    → Fuelled (propagate_loop fuel work f)
propagate_loop-Fuelled fuel [] f h = unfold propagate_loop in λ q. cc
propagate_loop-Fuelled zero (w ∷ work) f h = absurd (omega arith)
propagate_loop-Fuelled (suc fuel) ((k, d) ∷ work) f h =
    loop_step fuel work f k d (visit f k d) refl (visit-Visits f k d)
      (λ g w. propagate_loop-Fuelled fuel w g) (omega arith)

-- A propagation, from any frontier, state and depth, never ends by running out of the fuel of the model.
pub propagate-ends :
    (f : Frontier) (state : StateKey) (depth : ℕ) → (propagate f state depth).1 ≢ throws no_fuel
unfolding propagate
propagate-ends f state depth =
    propagate_loop-Fuelled (potential f.nodes + 1) ((state, depth) ∷ []) f (omega arith)
