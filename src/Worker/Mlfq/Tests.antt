-- ===== src/Worker/Mlfq/Tests.antt =====
-- p2/code/thread-worker.c: the multilevel scheduler at a small state: thread 1 has used up its quantum
-- at the top level, thread 2 waits there for a mutex, and thread 3 waits one level below.
use cs416_os.Prelude.{
  ℕ, zero, suc, ◌<◌, length, ◌==◌, ◌≡◌, ◌≢◌, true, refl, none, some, ◌⊎◌, List, [], ◌∷◌, arith, All,
  if◌then◌else◌,
}
use cs416_os.Worker.Tcb.{Tcb, Store}
use cs416_os.Worker.Threads.{new_tcb}
use cs416_os.Worker.Queue.{Queue, empty_queue}
use cs416_os.Worker.World.{World}
use cs416_os.Worker.Library.{initial_globals}
use cs416_os.Worker.Mlfq.{level_queue, boost_all_queues}
use cs416_os.Worker.Mlfq.Boost.{IsRaised, gathered}
use cs416_os.Worker.Mlfq.Boosted.{boost_all_queues_lem}

abbrev thread : ℕ → ℕ → ℕ → Tcb
thread tid seeking level = record (new_tcb tid 0) {
  seeking_lock = seeking;
  priority_level = level;
  time_quantum_used_up_fully = true;
}

abbrev three : Store
three p = if p == 100 then thread 1 0 0 else if p == 200 then thread 2 1 0 else thread 3 0 1

abbrev levels : List Queue
levels =
    record { size = 1; items = 200 ∷ [] }
    ∷ record { size = 1; items = 300 ∷ [] }
    ∷ empty_queue
    ∷ empty_queue
    ∷ []

abbrev state : World
state = record (initial_globals three (λ p. 0)) {
  all_queue = levels;
  running = 100;
  tcbs = record { size = 3; nodes = 100 ∷ 200 ∷ 300 ∷ [] };
}

counts : (k : ℕ) → k < 4 → (level_queue state k).size ≡ length (level_queue state k).items
counts zero h = refl
counts (suc zero) h = refl
counts (suc (suc zero)) h = refl
counts (suc (suc (suc zero))) h = refl
counts (suc (suc (suc (suc k)))) h = absurd (omega arith)

boost_all_queues_lem_example :
    ((length (gathered 4 state 0) ≢ 3) × (boost_all_queues state ≡ none))
    ⊎ ((w' : World) × (length (gathered 4 state 0) ≡ 3)
        × (boost_all_queues state ≡ some w')
        × ((level_queue w' 0).items ≡ gathered 4 state 0)
        × ((k : ℕ) → 0 < k → k < 4 → (level_queue w' k).items ≡ [])
        × All (λ p. IsRaised (w'.store p)) (gathered 3 state 1))
boost_all_queues_lem_example = boost_all_queues_lem state refl counts (omega arith)
