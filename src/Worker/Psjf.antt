-- ===== src/Worker/Psjf.antt =====
-- p2/code/thread-worker.c: one round of `sched_psjf`, from the scheduler context's being entered to
-- its swapping to the thread that it chose. `now` and `later` are the two readings of the clock.
pub mod Choice
pub mod Dispatch
pub mod Round
pub mod Total
pub mod Members
pub mod Parts
use cs416_os.Prelude.{
  ℕ, zero, suc, ◌+◌, ◌-◌, ◌==◌, Bool, true, false, not, if◌then◌else◌, Option, some, List, [], ◌∷◌,
  ◌>>=◌,
}
use cs416_os.Worker.Tcb.{Store, is_waiting_on_a_thread, time_quantum}
use cs416_os.Worker.ThreadList.{
  ThreadList, insert_by_usage, remove_from, find_first_unblocked_thread,
}
use cs416_os.Worker.Queue.{Queue, is_empty, dequeue}
use cs416_os.Worker.World.{World, current, set_current}

-- `set_timer`: the timer is set for the rest of the quantum, or turned off.
unfoldable pub set_timer : World → Bool → ℕ → World
set_timer w to_set remaining = record w {
  timer_usec = if to_set then time_quantum - remaining else 0;
}

-- Whether every listed thread but `tid` waits for a thread to end.
unfoldable pub others_joining : Store → List ℕ → ℕ → Bool
others_joining h [] tid = true
others_joining h (p ∷ ps) tid =
    let rest = others_joining h ps tid in
    if is_waiting_on_a_thread (h p) then rest else if (h p).thread_id == tid then rest else false

unfoldable pub remaining_threads_blocked : World → ℕ → Bool
unfolding others_joining
remaining_threads_blocked w p = others_joining w.store w.tcbs.nodes (w.store p).thread_id

-- The loop over new arrivals, which dequeues `q.size` times.
unfoldable pub admit : Store → ℕ → Queue → ThreadList → Option (Queue × ThreadList)
admit h zero q l = some (q, l)
admit h (suc n) q l = elim (is_empty q) [
  | true ↦ some (q, l)
  | false ↦ (dequeue q >>= λ r. insert_by_usage h l r.0 >>= λ l'. admit h n r.1 l')
]

-- The bookkeeping before a thread is swapped to.
unfoldable pub first_run : World → ℕ → World
first_run w now =
    if (current w).previously_scheduled
    then w
    else set_current w (record (current w) { first_scheduled = now; previously_scheduled = true })

unfoldable pub dispatch : World → ℕ → ℕ → World
unfolding set_timer first_run remaining_threads_blocked
dispatch w now later =
    let w₁ = first_run w now in
    let w₂ =
      set_timer w₁ (not (remaining_threads_blocked w₁ w₁.running)) (current w₁).quantum_amt_used in
    record (set_current w₂ (record (current w₂) { time_of_last_scheduling = later })) {
      tot_cntx_switches = w₂.tot_cntx_switches + 1;
    }

-- The threads among which the scheduler chooses: those that waited, the arrivals and the thread
-- that ran, if it has not ended.
unfoldable pub run_queue : World → Option (Queue × ThreadList)
run_queue w = do
  a ← admit w.store w.q_arrival.size w.q_arrival w.tcbs
  if w.running == 0 then some a else (insert_by_usage w.store a.1 w.running >>= λ l. some (a.0, l))

-- The state once the chosen thread has left the run queue.
abbrev pub picked : World → Queue → ℕ → ThreadList → World
picked w q p l = record w {
  q_arrival = q;
  tcbs = l;
  running = p;
  tot_cntx_switches = w.tot_cntx_switches + 1;
}

unfoldable pub choose : World → ℕ → ℕ → Queue × ThreadList → Option World
choose w now later a = do
  p ← find_first_unblocked_thread w.store a.1
  r ← remove_from w.store a.1 (w.store p).thread_id
  some (dispatch (picked w a.0 r.0 r.1) now later)

unfoldable pub sched_psjf : World → ℕ → ℕ → Option World
unfolding choose
sched_psjf w now later = run_queue w >>= choose w now later
