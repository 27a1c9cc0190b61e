-- ===== src/Frontier/Distances.antt =====
-- Depths along edges: what propagation owes to the successors of expanded nodes.
use mathlib.Core.List.{append_assoc}
use det_sim.Base.{
  ℕ, zero, suc, ◌+◌, ◌≤◌, ◌≡◌, refl, some, List, [], ◌∷◌, ◌++◌, map, arith, ok, throws, ◌==◌,
  if◌then◌else◌, Bool-cases, ◌⊎◌, inl, inr,
}
use det_sim.Base.Map.{find, find-put, find-modify, apply}
use det_sim.Frontier.State.{
  StateKey, Node, NodePhase, Frontier, Call, chain, index_add, update, moved, write_node,
  index_remove, u64,
}
use det_sim.Frontier.Visit.{Visits, no_room, no_sequence, inserted, kept, improved, visit-Visits}
use det_sim.Frontier.Propagate.{
  Work, visit, insert_node, improve, count_duplicate, propagate_loop, push_successors, new_node,
  after_cut,
}

-- The state is a node of depth `d` at most.
abbrev pub Within : Frontier → StateKey → ℕ → Type 0
Within f s d = (m : Node) × (find s f.nodes ≡ some m) × (m.depth ≤ d)

-- The work enters the state at distance `d` at most.
abbrev pub InWork : StateKey → ℕ → Work → Type 0
InWork s d [] = ⊥
InWork s d ((k, e) ∷ w) = ((k ≡ s) × (e ≤ d)) ⊎ InWork s d w

abbrev pub Owed : Frontier → Work → StateKey → ℕ → Type 0
Owed f w s d = Within f s d ⊎ InWork s d w

abbrev pub AllOwed : Frontier → Work → ℕ → List StateKey → Type 0
AllOwed f w d [] = Unit {0}
AllOwed f w d (s ∷ ss) = Owed f w s d × AllOwed f w d ss

-- Each successor of an expanded node is a node at most one deeper, or the work makes it so.
abbrev pub Settles : Frontier → Work → Type 0
Settles f w =
    (k : StateKey) (n : Node)
    → find k f.nodes ≡ some n
    → n.phase ≡ NodePhase.expanded
    → AllOwed f w (n.depth + 1) n.successors

pub AllOwed-map :
    (f g : Frontier) (v w : Work) (d : ℕ) (ss : List StateKey)
    → ((s : StateKey) → Owed f v s d → Owed g w s d)
    → AllOwed f v d ss
    → AllOwed g w d ss
AllOwed-map f g v w d [] h a = tt
AllOwed-map f g v w d (s ∷ ss) h a = (h s a.0, AllOwed-map f g v w d ss h a.1)

InWork-append : (s : StateKey) (d : ℕ) (v w : Work) → InWork s d w → InWork s d (v ++ w)
InWork-append s d [] w h = h
InWork-append s d (x ∷ v) w h = inr (InWork-append s d v w h)

pub find-insert_node :
    (f : Frontier) (k : StateKey) (d : ℕ) (j : StateKey)
    → find j (insert_node f k d).nodes ≡ (if k == j then some (new_node f d) else find j f.nodes)
unfolding insert_node index_add
find-insert_node f k d j = find-put k j (new_node f d) f.nodes

pub find-improve :
    (f : Frontier) (k : StateKey) (n : Node) (d : ℕ) (j : StateKey)
    → find j (improve f k n d).nodes
      ≡ (if k == j then apply (moved (after_cut n.phase) d) (find j f.nodes) else find j f.nodes)
unfolding improve update index_add write_node index_remove
find-improve f k n d j = find-modify k j (moved (after_cut n.phase) d) f.nodes

visit-Within :
    {f : Frontier} {k : StateKey} {d : ℕ} {c : Call Work} (s : StateKey) (e : ℕ)
    → Visits f k d c
    → Within f s e
    → Within c.0 s e
unfolding count_duplicate
visit-Within s e (no_room h r) x = x
visit-Within s e (no_sequence h r) x = x
visit-Within {f} {k} {d} s e (inserted h r q) x =
    (x.0, ground (arith, find-insert_node f k d s), x.2)
visit-Within s e (kept n h l) x = x
visit-Within {f} {k} {d} s e (improved n h l) x = elim (Bool-cases (k == s)) [
  | inl q ↦ (
    moved (after_cut n.phase) d n,
    ground (arith, find-improve (count_duplicate f) k n d s),
    ground arith,
  )
  | inr q ↦ (x.0, ground (arith, find-improve (count_duplicate f) k n d s), x.2)
]

visit-own :
    {f : Frontier} {k : StateKey} {d : ℕ} {g : Frontier} {pushed : Work}
    → Visits f k d (g, ok pushed)
    → Within g k d
unfolding count_duplicate
visit-own {f} {k} {d} (inserted h r q) =
    (new_node f d, ground (arith, find-insert_node f k d k), omega arith)
visit-own (kept n h l) = (n, h, l)
visit-own {f} {k} {d} (improved n h l) = (
  moved (after_cut n.phase) d n,
  ground (arith, find-improve (count_duplicate f) k n d k),
  omega arith,
)

visit-Owed :
    (f : Frontier) (k : StateKey) (d : ℕ) (g : Frontier) (pushed w : Work) (e : ℕ) (s : StateKey)
    → Visits f k d (g, ok pushed)
    → Owed f ((k, d) ∷ w) s e
    → Owed g (pushed ++ w) s e
visit-Owed f k d g pushed w e s v (inl x) = inl (visit-Within s e v x)
visit-Owed f k d g pushed w e s v (inr (inl (q, l))) =
    let x = visit-own v in inl (x.0, rw (← q) x.1, omega arith)
visit-Owed f k d g pushed w e s v (inr (inr x)) = inr (InWork-append s e pushed w x)

-- What was owed before a round is owed after it.
round-AllOwed :
    (f : Frontier) (k : StateKey) (d : ℕ) (g : Frontier) (pushed w : Work) (e : ℕ)
    (ss : List StateKey)
    → Visits f k d (g, ok pushed)
    → AllOwed f ((k, d) ∷ w) e ss
    → AllOwed g (pushed ++ w) e ss
round-AllOwed f k d g pushed w e ss v =
    AllOwed-map f g ((k, d) ∷ w) (pushed ++ w) e ss (λ s. visit-Owed f k d g pushed w e s v)

after_cut-expanded : (p : NodePhase) → after_cut p ≡ NodePhase.expanded → p ≡ NodePhase.expanded
after_cut-expanded p h = ground arith

owes-all :
    (g : Frontier) (w : Work) (d e : ℕ) (ss : List StateKey)
    → e ≤ d
    → AllOwed g (map (λ s. (s, e)) ss ++ w) d ss
owes-all g w d e [] h = tt
owes-all g w d e (s ∷ ss) h = (
  inr (inl (refl, h)),
  AllOwed-map g g (map (λ t. (t, e)) ss ++ w) ((s, e) ∷ map (λ t. (t, e)) ss ++ w) d ss
      (λ t. later g t) (owes-all g w d e ss h),
)
  where
    later :
        (g : Frontier) (t : StateKey)
        → Owed g (map (λ t. (t, e)) ss ++ w) t d
        → Owed g ((s, e) ∷ map (λ t. (t, e)) ss ++ w) t d
    later g t (inl x) = inl x
    later g t (inr x) = inr (inr x)

improved-Settles :
    (f : Frontier) (k : StateKey) (d : ℕ) (w : Work) (n m : Node)
    → n.phase ≡ NodePhase.expanded
    → m ≡ moved (after_cut n.phase) d n
    → (g : Frontier) → AllOwed g (push_successors n d ++ w) (m.depth + 1) m.successors
improved-Settles f k d w n m h e g =
    rw (e, h) (owes-all g w (d + 1) (u64 (d + 1)) n.successors (omega arith))

visit-Settles :
    {f : Frontier} {k : StateKey} {d : ℕ} {g : Frontier} {pushed : Work} (w : Work)
    → Visits f k d (g, ok pushed)
    → Settles f ((k, d) ∷ w)
    → Settles g (pushed ++ w)
unfolding count_duplicate
visit-Settles {f} {k} {d} w (inserted h r q) c j m e x = elim (Bool-cases (k == j)) [
  | inl i ↦ absurd (ground (arith, find-insert_node f k d j))
  | inr i ↦
      round-AllOwed f k d (insert_node f k d) [] w (m.depth + 1) m.successors (inserted h r q)
        (c j m (ground (arith, find-insert_node f k d j)) x)
]
visit-Settles {f} {k} {d} w (kept n h l) c j m e x =
    round-AllOwed f k d (count_duplicate f) [] w (m.depth + 1) m.successors (kept n h l) (c j m e x)
visit-Settles {f} {k} {d} w (improved n h l) c j m e x = elim (Bool-cases (k == j)) [
  | inl i ↦
      let q : m ≡ moved (after_cut n.phase) d n =
        ground (arith, find-improve (count_duplicate f) k n d j) in
      improved-Settles f k d w n m (after_cut-expanded n.phase (ground arith)) q
        (improve (count_duplicate f) k n d)
  | inr i ↦
      round-AllOwed f k d (improve (count_duplicate f) k n d) (push_successors n d) w (m.depth + 1)
        m.successors (improved n h l)
        (c j m (ground (arith, find-improve (count_duplicate f) k n d j)) x)
]

-- A round of the loop, by what `visit` gives.
loop_round :
    (fuel : ℕ) (work : Work) (f : Frontier) (k : StateKey) (d : ℕ) (c : Call Work)
    (P : Call (Unit {0}) → Type 0)
    → visit f k d ≡ c
    → P (chain c (λ pushed. propagate_loop fuel (pushed ++ work)))
    → P (propagate_loop (suc fuel) ((k, d) ∷ work) f)
unfolding propagate_loop
loop_round fuel work f k d c P q p = rw q p

-- The loop never raises a depth.
pub loop-Within :
    (fuel : ℕ) (work : Work) (f : Frontier) (s : StateKey) (e : ℕ)
    → Within f s e
    → Within (propagate_loop fuel work f).0 s e
loop-Within fuel [] f s e x = unfold propagate_loop in x
loop-Within zero (w ∷ work) f s e x = unfold propagate_loop in x
loop-Within (suc fuel) ((k, d) ∷ work) f s e x =
    go (visit f k d) refl (visit-Visits f k d) (loop-Within fuel)
  where
    go :
        (c : Call Work)
        → visit f k d ≡ c
        → Visits f k d c
        → ((v : Work) (g : Frontier) (t : StateKey) (b : ℕ)
            → Within g t b
            → Within (propagate_loop fuel v g).0 t b)
        → Within (propagate_loop (suc fuel) ((k, d) ∷ work) f).0 s e
    go (g, ok pushed) q v ih =
        loop_round fuel work f k d (g, ok pushed) (λ c. Within c.0 s e) q
          (ih (pushed ++ work) g s e (visit-Within s e v x))
    go (g, throws z) q v ih =
        loop_round fuel work f k d (g, throws z) (λ c. Within c.0 s e) q (visit-Within s e v x)

-- When the loop ends without an exception, nothing is owed but what further work pays for.
abbrev pub SettlesAfter : Work → Call (Unit {0}) → Type 0
SettlesAfter extra c = c.1 ≡ ok tt → Settles c.0 extra

pub loop-Settles :
    (fuel : ℕ) (work extra : Work) (f : Frontier)
    → Settles f (work ++ extra)
    → SettlesAfter extra (propagate_loop fuel work f)
loop-Settles fuel [] extra f c = unfold propagate_loop in λ h. c
loop-Settles zero (w ∷ work) extra f c = unfold propagate_loop in λ h. cc
loop-Settles (suc fuel) ((k, d) ∷ work) extra f c =
    go (visit f k d) refl (visit-Visits f k d) (loop-Settles fuel)
  where
    go :
        (c : Call Work)
        → visit f k d ≡ c
        → Visits f k d c
        → ((v u : Work) (g : Frontier)
            → Settles g (v ++ u)
            → SettlesAfter u (propagate_loop fuel v g))
        → SettlesAfter extra (propagate_loop (suc fuel) ((k, d) ∷ work) f)
    go (g, ok pushed) q v ih =
        loop_round fuel work f k d (g, ok pushed) (SettlesAfter extra) q
          (ih (pushed ++ work) extra g (rw append_assoc (visit-Settles (work ++ extra) v c)))
    go (g, throws z) q v ih =
        loop_round fuel work f k d (g, throws z) (SettlesAfter extra) q (λ h. cc)
