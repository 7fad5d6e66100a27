-- ===== src/Worker/Mlfq/Round.antt =====
-- p2/code/thread-worker.c: a whole round of `sched_mlfq`.
use cs416_os.Prelude.{ℕ, ◌<◌, ◌≡◌, ◌≢◌, false, List, ◌∷◌, ◌++◌}
use cs416_os.Worker.Tcb.{is_blocked, queue_levels}
use cs416_os.Worker.Queue.{Queue}
use cs416_os.Worker.World.{World}
use cs416_os.Worker.Mlfq.{level_queue}
use cs416_os.Worker.Mlfq.Search.{Blocked}
use cs416_os.Worker.Mlfq.Entering.{round_queues}

-- The outcome of a round: the thread that runs next is the first unblocked one of level `k`, and no
-- level above has one.
pub record Selected (w w' : World) (k : ℕ) : Type 0 where
  pub above : (j : ℕ) → j < k → Blocked w.store (round_queues w j)
  pub before : List ℕ
  pub after : List ℕ
  pub items_eq : round_queues w k ≡ before ++ (w'.running ∷ after)
  pub passed : Blocked w.store before
  pub unblocked : is_blocked (w'.store w'.running) ≡ false
  pub left : (level_queue w' k).items ≡ after ++ before
  pub others : (j : ℕ) → j < queue_levels → j ≢ k → (level_queue w' j).items ≡ round_queues w j
