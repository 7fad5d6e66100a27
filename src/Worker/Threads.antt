-- ===== src/Worker/Threads.antt =====
-- p2/code/thread-worker.c: creating, yielding, exiting and joining, and what the cleanup context and
-- the timer signal do. `now` is what `clock_gettime` reads.
pub mod Alert
use cs416_os.Prelude.{
  ℕ, ◌-◌, ◌/◌, ◌==◌, leb, true, false, not, if◌then◌else◌, Option, none, some, List, [], ◌∷◌, ◌>>=◌,
  ◌>>◌, assert,
}
use cs416_os.Worker.Tcb.{Tcb, update, add_uint, nonexistent_thread, nonexistent_mutex, time_quantum}
use cs416_os.Worker.ThreadList.{contains, is_found, remove_from, insert_at_front}
use cs416_os.Worker.Queue.{enqueue}
use cs416_os.Worker.World.{World, current, set_current, write_result, Outcome, returned, yields}

-- The tcb that `worker_create` fills in.
abbrev pub new_tcb : ℕ → ℕ → Tcb
new_tcb tid now = record {
  thread_id = tid;
  ret_value = 0;
  join_tid = nonexistent_thread;
  join_retval = 0;
  seeking_lock = nonexistent_mutex;
  quantums_elapsed = 0;
  quantum_amt_used = 0;
  time_of_last_scheduling = 0;
  time_quantum_used_up_fully = false;
  priority_level = 0;
  previously_scheduled = false;
  arrival = now;
  first_scheduled = 0;
  completion = 0;
}

-- `item` is the block that `malloc` returns. The result is the thread's number.
unfoldable pub worker_create : World → ℕ → ℕ → World × ℕ
worker_create w item now =
    let tid = add_uint w.last_created_worker_tid 1 in
    (
      record w {
        store = update w.store item (new_tcb tid now);
        last_created_worker_tid = tid;
        q_arrival = enqueue w.q_arrival item;
      },
      tid,
    )

-- The accounting of `worker_yield`, before it swaps to the scheduler.
unfoldable pub worker_yield : World → ℕ → World
worker_yield w now =
    let t = current w in
    let used = add_uint t.quantum_amt_used ((now - t.time_of_last_scheduling) / 1000) in
    if leb time_quantum used
    then record w {
      store = update w.store w.running (record t {
        quantum_amt_used = 0;
        time_quantum_used_up_fully = true;
        quantums_elapsed = add_uint t.quantums_elapsed 1;
      });
      total_quantums_elapsed = add_uint w.total_quantums_elapsed 1;
    }
    else set_current w (record t { quantum_amt_used = used })

unfoldable pub worker_exit : World → ℕ → World
worker_exit w value = set_current w (record (current w) { ret_value = value })

-- The caller of `worker_join` waits. `value_ptr` is 0 where it passes NULL.
abbrev pub wait_for : World → ℕ → ℕ → World
wait_for w thread value_ptr =
    set_current w (record (current w) { join_tid = thread; join_retval = value_ptr })

unfoldable pub worker_join : World → ℕ → ℕ → ℕ → Outcome
worker_join w thread value_ptr now = elim (contains w.store w.ended_tcbs thread) [
  | some e ↦ returned (if value_ptr == 0 then w else write_result w value_ptr (w.store e).ret_value)
  | none ↦ yields (worker_yield (wait_for w thread value_ptr) now)
]

-- One thread that `worker_join`ed the ended one: a NULL `join_retval` is written through all the
-- same if the ended thread left a value.
unfoldable pub alert_one : World → ℕ → ℕ → ℕ → Option World
alert_one w p ended value =
    if (w.store p).join_tid == ended
    then (let w' : World = record w {
      store = update w.store p (record (w.store p) { join_tid = nonexistent_thread });
    } in
        if value == 0
        then some w'
        else if (w.store p).join_retval == 0
        then none
        else some (write_result w' (w.store p).join_retval value))
    else some w

unfoldable pub alert_each : World → List ℕ → ℕ → ℕ → Option World
alert_each w [] ended value = some w
alert_each w (p ∷ ps) ended value = alert_one w p ended value >>= λ w'. alert_each w' ps ended value

unfoldable pub alert_waiting_threads : World → ℕ → ℕ → Option World
alert_waiting_threads w ended value = alert_each w w.tcbs.nodes ended value

-- The cleanup context, entered when the running thread's function has returned.
unfoldable pub clean_exited_worker_thread : World → ℕ → Option World
clean_exited_worker_thread w now = do
  let w₁ : World = set_current w (record (current w) { completion = now })
  let t : Tcb = current w₁
  left ←
      (if is_found w₁.store (contains w₁.store w₁.tcbs t.thread_id)
        then (remove_from w₁.store w₁.tcbs t.thread_id >>= λ r. some r.1)
        else some w₁.tcbs)
  let w₂ : World = record w₁ {
    tcbs = left;
    ended_tcbs = insert_at_front w₁.store w₁.ended_tcbs w₁.running;
  }
  assert (not (w₂.ended_tcbs.size == 0))
  assert (not (w₂.running == 0))
  w₃ ← alert_waiting_threads w₂ t.thread_id t.ret_value
  some (record w₃ { running = 0 })

-- The handler of SIGPROF, before it swaps to the scheduler.
unfoldable pub timer_signal_handler : World → World
timer_signal_handler w = record w {
  store = update w.store w.running (record (current w) {
    time_quantum_used_up_fully = true;
    quantums_elapsed = add_uint (current w).quantums_elapsed 1;
    quantum_amt_used = 0;
  });
  total_quantums_elapsed = add_uint w.total_quantums_elapsed 1;
}
