-- ===== src/Frontier/Tests.antt =====
-- A depth-first search that admits a state, leases it and commits its two successors.
use det_sim.Base.{◌≡◌, ◌≢◌, refl, true, false, none, some, [], ◌∷◌, ok, throws, arith}
use det_sim.Base.Map.{find, put, emplace, erase, modify, contains}
use det_sim.Frontier.State.{
  Ticket, Expansion, ResultKind, Frontier, construct, no_counts, ensure_healthy, index_add,
  index_remove, update, write_node, no_fuel, dfs,
}
use det_sim.Frontier.Propagate.{
  admit, propagate, propagate_loop, potential, visit, insert_node, improve, count_duplicate,
}
use det_sim.Frontier.Lease.{lease}
use det_sim.Frontier.Commit.{commit, check_commit, propagate_all, settle, status}
use det_sim.Frontier.Invariant.{Reach, here, next, admits, leases, commits}
use det_sim.Frontier.Potential.{propagate-ends}
use det_sim.Frontier.Holders.{IsLeased}
use det_sim.Frontier.Leases.{Reach-IsLeased}
use det_sim.Frontier.Reach.{IsSettled, Reach-IsSettled}
use det_sim.Frontier.Verdict.{Verdict}
use det_sim.Frontier.Outcome.{Reach-status}

abbrev start : Frontier
start = record {
  limit = 5;
  next_sequence = 0;
  next_lease = 0;
  policy = dfs;
  priority = none;
  max_states = 10;
  poisoned = false;
  nodes = [];
  pending = [];
  bfs_pending = [];
  active_layers = [];
  phase_counts = λ p. 0;
  counters = no_counts;
}

start_ok : construct 5 dfs none 10 ≡ ok start
unfolding construct
start_ok = refl

abbrev admitted : Frontier
admitted = (admit start 7 0).0

abbrev leased : Frontier
leased = (lease admitted 1).0

abbrev ticket : Ticket
ticket = record { state = 7; worker = 1; lease_id = 1; depth = 0; may_expand = true }

abbrev found : Expansion
found = record { kind = ResultKind.expanded; successors = 8 ∷ 9 ∷ []; reason = [] }

abbrev committed : Frontier
committed = (commit leased ticket found).0

run : Reach start committed
unfolding admit propagate propagate_loop potential visit insert_node improve count_duplicate
    index_add index_remove update write_node ensure_healthy find put emplace erase modify contains
    lease commit check_commit propagate_all settle
run =
    next (next (next here (admits 7 0 true refl)) (leases 1 (some ticket) refl))
      (commits ticket found refl)

propagate-ends_example : (propagate leased 7 0).1 ≢ throws no_fuel
propagate-ends_example = propagate-ends leased 7 0

Reach-IsSettled_example : IsSettled committed
Reach-IsSettled_example = Reach-IsSettled 5 dfs none 10 {f = start} {g = committed} start_ok run

Reach-status_example : Verdict committed (status committed)
Reach-status_example =
    Reach-status 5 dfs none 10 {f = start} {g = committed} start_ok (omega arith) run

Reach-IsLeased_example : IsLeased committed
Reach-IsLeased_example = Reach-IsLeased 5 dfs none 10 {f = start} {g = committed} start_ok run
