-- ===== src/Worker/Tests.antt =====
-- p2/code/thread-worker.c: the theorems at small states: thread 1 runs, thread 2 waits in the run
-- queue for mutex 1, and thread 3 has just arrived.
use mathlib.Core.List.{
  Mem, Nodup-cons, Perm, mem-cons_self, mem-cons_of_mem, not-mem-nil, mem_of_ne_of_mem, Pairwise,
}
use cs416_os.Prelude.{
  List, ℕ, ◌==◌, ◌≡◌, ◌≢◌, refl, false, ◌⊎◌, none, some, [], ◌∷◌, ◌++◌, arith, All, if◌then◌else◌,
}
use cs416_os.Worker.Tcb.{Tcb, Store, is_blocked}
use cs416_os.Worker.Threads.{new_tcb}
use cs416_os.Worker.ThreadList.{ThreadList, find_node, insert_by_usage, remove_from}
use cs416_os.Worker.ThreadList.Sorted.{IsSorted}
use cs416_os.Worker.ThreadList.Insert.{IsSized, insert_by_usage_lem}
use cs416_os.Worker.World.{World, returned, yields, current}
use cs416_os.Worker.Psjf.{sched_psjf}
use cs416_os.Worker.Psjf.Round.{IsReady, Chosen, sched_psjf_lem}
use cs416_os.Worker.Mutex.{worker_mutex_lock, worker_mutex_unlock}
use cs416_os.Worker.Mutex.Holding.{
  Holds, Woken, holder_of, worker_mutex_lock_lem, worker_mutex_unlock_lem,
}
use cs416_os.Worker.Ring.{Node, Nodes, Ring}
use cs416_os.Worker.Ring as Ring
use cs416_os.Worker.Ring.Refine.{Holds as RingHolds, nodes}
use cs416_os.Worker.Queue.{Queue}
use cs416_os.Worker.Queue as Queue
use cs416_os.Worker.Queue.Stored.{IsStored, enqueue-IsStored, dequeue-IsStored}
use cs416_os.Worker.Threads.{alert_waiting_threads}
use cs416_os.Worker.Threads.Alert.{IsNullWaiter, Woken as JoinWoken, alert_waiting_threads_lem}
use cs416_os.Worker.Mlfq.{search_queue}
use cs416_os.Worker.Mlfq.Search.{Blocked, search_queue_lem}

abbrev thread : ℕ → ℕ → ℕ → Tcb
thread tid seeking used = record (new_tcb tid 0) { seeking_lock = seeking; quantum_amt_used = used }

abbrev three : Store
three p = if p == 100 then thread 1 0 7000 else if p == 200 then thread 2 1 50 else thread 3 0 0

abbrev waiting_list : ThreadList
waiting_list = record { size = 1; nodes = 200 ∷ [] }

abbrev state : World
state = record {
  store = three;
  last_created_worker_tid = 3;
  current_mutex_num = 1;
  mutexes = record { lock_num = 1; holder_tid = 1 } ∷ [];
  q_arrival = record { size = 1; items = 300 ∷ [] };
  tcbs = waiting_list;
  ended_tcbs = record { size = 0; nodes = [] };
  all_queue = [];
  total_quantums_elapsed = 0;
  running = 100;
  tot_cntx_switches = 4;
  timer_usec = 0;
  results = λ p. 0;
}

state-IsReady : IsReady state
state-IsReady = record {
  arrivals = refl;
  sized = record { counted = refl; small = omega arith };
  room = omega arith;
  sorted = tt;
  distinct = Nodup-cons.1 (
    λ m. not-mem-nil (mem_of_ne_of_mem (ground arith) (mem_of_ne_of_mem (ground arith) m)),
    Nodup-cons.1 (
      λ m. not-mem-nil (mem_of_ne_of_mem (ground arith) m),
      Nodup-cons.1 (not-mem-nil, Pairwise.nil),
    ),
  );
}

sched_psjf_lem_example : (w' : World) × (sched_psjf state 5000 6000 ≡ some w') × Chosen state w'
unfolding is_blocked
sched_psjf_lem_example =
    sched_psjf_lem state 5000 6000 300 state-IsReady (mem-cons_of_mem _ mem-cons_self) refl

waiting_list-IsSized : IsSized waiting_list
waiting_list-IsSized = record { counted = refl; small = omega arith }

insert_by_usage_lem_example :
    (l' : ThreadList) × (insert_by_usage three waiting_list 100 ≡ some l')
    × (l'.size ≡ 2)
    × IsSized l'
    × IsSorted three l'.nodes
    × Perm l'.nodes (100 ∷ 200 ∷ [])
    × (remove_from three l' 1 ≡ some (100, waiting_list))
unfolding find_node
insert_by_usage_lem_example =
    insert_by_usage_lem three waiting_list 100 waiting_list-IsSized (omega arith) tt refl

worker_mutex_lock_lem_example :
    ((holder_of state.mutexes 1 ≡ none) × (worker_mutex_lock state 1 9000 ≡ none))
    ⊎ ((w' : World) × (holder_of state.mutexes 1 ≡ some 0)
        × (worker_mutex_lock state 1 9000 ≡ some (returned w'))
        × Holds state.mutexes w'.mutexes 1 1
        × (w'.store ≡ state.store))
    ⊎ ((t : ℕ) × (w' : World) × (holder_of state.mutexes 1 ≡ some t)
        × (t ≢ 0)
        × (worker_mutex_lock state 1 9000 ≡ some (yields w'))
        × (w'.mutexes ≡ state.mutexes)
        × ((current w').seeking_lock ≡ 1))
worker_mutex_lock_lem_example = worker_mutex_lock_lem state 1 9000

worker_mutex_unlock_lem_example :
    ((holder_of state.mutexes 1 ≢ some 1) × (worker_mutex_unlock state 1 ≡ none))
    ⊎ ((w' : World) × (holder_of state.mutexes 1 ≡ some 1)
        × (worker_mutex_unlock state 1 ≡ some w')
        × Holds state.mutexes w'.mutexes 1 0
        × Woken state w' 1)
worker_mutex_unlock_lem_example = worker_mutex_unlock_lem state 1 (ground arith)

-- Two nodes, at 16 and at 32, the rear.
abbrev two_nodes : Nodes
two_nodes p = if p == 32 then record { item = 200; next = 16 } else record { item = 100; next = 32 }

abbrev two : Ring
two = record { size = 2; rear = 32 }

two-Holds : RingHolds two_nodes two (100 ∷ 200 ∷ [])
two-Holds = nodes (16 ∷ []) (refl, refl) (ground arith, tt) refl (omega arith) refl

abbrev queue_of_two : Queue
queue_of_two = record { size = 2; items = 100 ∷ 200 ∷ [] }

two-IsStored : IsStored two_nodes two queue_of_two
two-IsStored = record {
  holds = nodes (16 ∷ []) (refl, refl) (ground arith, tt) refl (omega arith) refl;
  sized = refl;
}

enqueue-IsStored_example :
    IsStored
      (Ring.enqueue two_nodes two 48 300).0
      (Ring.enqueue two_nodes two 48 300).1
      (Queue.enqueue queue_of_two 300)
enqueue-IsStored_example =
    enqueue-IsStored two_nodes two queue_of_two 48 300
      (record {
        holds = nodes (16 ∷ []) (refl, refl) (ground arith, tt) refl (omega arith) refl;
        sized = refl;
      })
      (ground arith, (ground arith, tt)) (omega arith)

dequeue-IsStored_example :
    (m' : Nodes) × (r' : Ring) × (q' : Queue) × (Ring.dequeue two_nodes two ≡ some (100, m', r'))
    × (Queue.dequeue queue_of_two ≡ some (100, q'))
    × IsStored m' r' q'
dequeue-IsStored_example =
    dequeue-IsStored two_nodes two queue_of_two 100 (200 ∷ []) two-IsStored refl

search_queue_lem_example :
    (Blocked three (200 ∷ 100 ∷ [])
      × (search_queue three 2 (record { size = 2; items = 200 ∷ 100 ∷ [] })
          ≡ some (0, record { size = 2; items = 200 ∷ 100 ∷ [] })))
    ⊎ ((before : List ℕ) × (p : ℕ) × (after : List ℕ) × (200 ∷ 100 ∷ [] ≡ before ++ (p ∷ after))
        × Blocked three before
        × (is_blocked (three p) ≡ false)
        × (search_queue three 2 (record { size = 2; items = 200 ∷ 100 ∷ [] })
            ≡ some (p, record { size = 1; items = after ++ before })))
search_queue_lem_example = search_queue_lem three (200 ∷ 100 ∷ []) 2 refl (omega arith)

abbrev exit_value : ℕ
exit_value = 7

alert_waiting_threads_lem_example :
    ((p : ℕ) × Mem p (200 ∷ [])
      × IsNullWaiter (three p) 3
      × (exit_value ≢ 0)
      × (alert_waiting_threads state 3 exit_value ≡ none))
    ⊎ ((w' : World) × (alert_waiting_threads state 3 exit_value ≡ some w')
        × All (λ q. (w'.store q).join_tid ≢ 3) (200 ∷ [])
        × ((q : ℕ) → JoinWoken (three q) (w'.store q) 3))
alert_waiting_threads_lem_example = alert_waiting_threads_lem state 3 exit_value (ground arith)
