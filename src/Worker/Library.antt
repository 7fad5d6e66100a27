-- ===== src/Worker/Library.antt =====
-- p2/code/thread-worker.c: the start of the library, at its first call, and its end at exit, and how the
-- scheduler context is entered first.
use cs416_os.Prelude.{
  ℕ, ◌==◌, Bool, false, if◌then◌else◌, Option, some, List, [], ◌∷◌, ◌>>=◌, ◌>>◌, assert, replicate,
  length,
}
use cs416_os.Worker.Tcb.{
  Tcb, Store, main_thread, nonexistent_thread, nonexistent_mutex, queue_levels,
}
use cs416_os.Worker.Psjf.{sched_psjf}
use cs416_os.Worker.Mlfq.{sched_mlfq}
use cs416_os.Worker.ThreadList.{insert_by_usage, empty_list, is_empty_list, remove_from, sub_ushort}
use cs416_os.Worker.Queue.{empty_queue, is_empty}
use cs416_os.Worker.World.{World, MutexNode, set_current, set_tcbs}

-- The globals before the first call: the counters as they are initialized, the pointers NULL.
abbrev pub initial_globals : Store → (ℕ → ℕ) → World
initial_globals h results = record {
  store = h;
  last_created_worker_tid = main_thread;
  current_mutex_num = 0;
  mutexes = [];
  q_arrival = empty_queue;
  tcbs = empty_list;
  ended_tcbs = empty_list;
  all_queue = [];
  total_quantums_elapsed = 0;
  running = 0;
  tot_cntx_switches = 0;
  timer_usec = 0;
  results = results;
}

-- The tcb of the main thread, in a block that `malloc` returned: the other members keep what the
-- block held.
abbrev pub main_tcb : Tcb → Tcb
main_tcb block = record block {
  thread_id = main_thread;
  join_tid = nonexistent_thread;
  seeking_lock = nonexistent_mutex;
  quantums_elapsed = 0;
  quantum_amt_used = 0;
  time_quantum_used_up_fully = false;
  priority_level = 0;
  previously_scheduled = false;
}

-- `item` is the block for the main thread's tcb, and `front` what the block of `mutexes` holds,
-- which is not initialized. `mlfq` is whether PSJF is not defined.
unfoldable pub init_library : World → Bool → List MutexNode → ℕ → World
init_library w mlfq front item =
    let w' : World = record w {
      q_arrival = empty_queue;
      tcbs = empty_list;
      ended_tcbs = empty_list;
      all_queue = if mlfq then replicate queue_levels empty_queue else w.all_queue;
      mutexes = front;
      running = item;
    } in
    set_current w' (main_tcb (w'.store item))

-- The scheduler context's function, up to its first swap to a thread. `mlfq` is whether MLFQ is
-- defined.
unfoldable schedule : World → Bool → ℕ → ℕ → Option World
schedule w mlfq now later =
    if mlfq
    then (insert_by_usage w.store w.tcbs w.running >>= λ l. sched_mlfq (set_tcbs w l) now later)
    else sched_psjf w now later

-- The loop that frees the ended tcbs: the size that the list is left with.
unfoldable pub drain : ℕ → List ℕ → ℕ
drain size [] = size
drain size (p ∷ ps) = drain (sub_ushort size 1) ps

-- `none` where an assertion fails. Nothing of the globals is used afterwards.
unfoldable pub cleanup_library : World → Bool → Option World
unfolding drain
cleanup_library w mlfq = do
  w₁ ←
      (if mlfq
        then (remove_from w.store w.tcbs main_thread >>= λ r. some (record w { tcbs = r.1 }))
        else some w)
  assert (is_empty w₁.q_arrival)
  assert (is_empty_list w₁.tcbs)
  let w₂ : World = record w₁ {
    ended_tcbs = record { size = drain w₁.ended_tcbs.size w₁.ended_tcbs.nodes; nodes = [] };
  }
  assert (is_empty_list w₂.ended_tcbs)
  assert (length w₂.mutexes == 0)
  some w₂
