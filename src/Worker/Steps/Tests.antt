-- ===== src/Worker/Steps/Tests.antt =====
-- p2/code/thread-worker.c: the theorems on reachable states at a short run: the main thread creates
-- thread 2, makes a mutex and takes it.
use mathlib.Core.List.{not-mem-nil, mem_of_ne_of_mem}
use cs416_os.Prelude.{ℕ, ◌+◌, ◌^◌, ◌<◌, ◌≡◌, ◌≢◌, refl, false, ◌⊎◌, none, some, [], arith, All}
use cs416_os.Worker.Tcb.{Store, is_blocked}
use cs416_os.Worker.World.{World, current, returned}
use cs416_os.Worker.Library.{initial_globals, init_library, cleanup_library}
use cs416_os.Worker.Threads.{new_tcb, worker_create, worker_yield, wait_for, timer_signal_handler}
use cs416_os.Worker.Mutex.{
  worker_mutex_init, worker_mutex_lock, is_held_by, fetch_from_mutexes, set_holder,
}
use cs416_os.Worker.Psjf.{sched_psjf}
use cs416_os.Worker.Psjf.Round.{IsReady, Chosen, candidates}
use cs416_os.Worker.Steps.{CanCreate, Reaches, start, later, creates, inits, locks}
use cs416_os.Worker.Steps.Invariant.{WaitsWell}
use cs416_os.Worker.Steps.Exclusion.{Moves}
use cs416_os.Worker.Steps.Reachable.{
  JoinEnds, RoundEnds, IsAlone, Reaches-IsReady, Reaches-WaitsWell, Reaches-resumes, Reaches-Moves,
  Reaches-JoinEnds, Reaches-cleanup_library,
}

abbrev blocks : Store
blocks p = new_tcb 0 0

abbrev variables : ℕ → ℕ
variables p = 0

abbrev main_item : ℕ
main_item = 100

abbrev started : World
started = init_library (initial_globals blocks variables) false [] main_item

abbrev with_thread : World
with_thread = (worker_create started 200 5).0

abbrev with_mutex : World
with_mutex = (worker_mutex_init with_thread).0

abbrev with_lock : World
with_lock = record with_mutex {
  mutexes = set_holder with_mutex.mutexes 1 (current with_mutex).thread_id;
}

can_create : CanCreate started 200
unfolding init_library
can_create = record {
  allocated = ground arith;
  fresh = λ m. not-mem-nil (mem_of_ne_of_mem (ground arith) m);
  fresh_of_ended = not-mem-nil;
  numbers_left = omega arith;
  places_left = omega arith;
}

mutex_left : with_thread.current_mutex_num + 1 < 2 ^ 32
unfolding init_library worker_create
mutex_left = omega arith

reached : Reaches blocks variables main_item with_mutex
reached = later (later start (creates 200 5 can_create)) (inits mutex_left)

locked : worker_mutex_lock with_mutex 1 9 ≡ some (returned with_lock)
unfolding init_library worker_create worker_mutex_init worker_mutex_lock is_held_by
    fetch_from_mutexes
locked = refl

reached_lock : Reaches blocks variables main_item with_lock
reached_lock = later reached (locks 1 9 locked)

Reaches-IsReady_example :
    IsReady with_lock × (with_lock.running ≢ 0) × (is_blocked (current with_lock) ≡ false)
Reaches-IsReady_example =
    Reaches-IsReady blocks variables main_item with_lock (ground arith) reached_lock

Reaches-WaitsWell_example : All (WaitsWell with_lock) (candidates with_lock)
Reaches-WaitsWell_example =
    Reaches-WaitsWell blocks variables main_item with_lock (ground arith) reached_lock

Reaches-resumes_example :
    ((w' : World) × (sched_psjf (worker_yield with_lock 7) 8 9 ≡ some w')
      × Chosen (worker_yield with_lock 7) w')
    × ((w' : World) × (sched_psjf (timer_signal_handler with_lock) 8 9 ≡ some w')
        × Chosen (timer_signal_handler with_lock) w')
    × RoundEnds (timer_signal_handler (wait_for with_lock 2 0)) 8 9
Reaches-resumes_example =
    Reaches-resumes blocks variables main_item with_lock 2 0 7 8 9 (ground arith) reached_lock

Reaches-Moves_example : Moves with_mutex with_lock 1
Reaches-Moves_example =
    Reaches-Moves blocks variables main_item with_mutex with_lock 1 (ground arith) reached
      (locks 1 9 locked)

Reaches-JoinEnds_example : JoinEnds with_lock 2 0 7 8 9
Reaches-JoinEnds_example =
    Reaches-JoinEnds blocks variables main_item with_lock 2 0 7 8 9 (ground arith) reached_lock

Reaches-cleanup_library_example :
    (IsAlone with_lock × (w' : World) × (cleanup_library with_lock false ≡ some w'))
    ⊎ ((¬ IsAlone with_lock) × (cleanup_library with_lock false ≡ none))
Reaches-cleanup_library_example =
    Reaches-cleanup_library blocks variables main_item with_lock (ground arith) reached_lock
