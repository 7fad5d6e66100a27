-- ===== src/Worker/Steps.antt =====
-- p2/code/thread-worker.c: a program's use of the library under the shortest-job-first scheduler, as
-- a step relation. Every step is one call of the running thread, one signal of the timer or the end
-- of the running thread; where the code swaps to the scheduler context, a step goes on to the swap
-- to the thread that `sched_psjf` chose. A thread that was swapped out in `worker_mutex_lock` may
-- make any call when it runs again, and so also the next round of that loop. `worker_join` unblocks
-- the signal once it has looked for the thread among the ended ones: in between the timer can fire
-- and other threads run, so the step in which the caller stores what it waits for does not ask
-- whether the thread has ended, and the timer can fire after it too, also before
-- `join_retval` is set, which is then a step of its own. The accounting of
-- `worker_yield` is taken whole. In `worker_mutex_destroy` of a mutex that is held, the call of
-- `worker_mutex_unlock` unblocks the signal before the mutex is removed: the call is also the two
-- steps `unlocks` and, after steps of other threads, `removes`, which takes the mutex out whatever
-- has become of it, or `removes_front`, when it stood first and the code had read the front by then;
-- a removal itself is one step.
mod Frame
mod Invariant
mod Round
mod Own
mod Calls
mod Mutexes
mod Locking
mod Releasing
mod Creating
mod Ends
mod Exclusion
mod Safety
mod Reachable
mod Tests
use mathlib.Core.List.{Mem}
use cs416_os.Prelude.{ℕ, ◌+◌, ◌^◌, ◌<◌, ◌≡◌, ◌≢◌, false, some, [], ◌++◌, length}
use cs416_os.Worker.Tcb.{Store}
use cs416_os.Worker.World.{World, current, set_current, returned, yields}
use cs416_os.Worker.Library.{initial_globals, init_library}
use cs416_os.Worker.Threads.{
  worker_create, worker_yield, worker_exit, wait_for, worker_join, clean_exited_worker_thread,
  timer_signal_handler,
}
use cs416_os.Worker.Mutex.{
  worker_mutex_init, worker_mutex_lock, worker_mutex_unlock, worker_mutex_destroy, remove_mutex,
  after_mutex,
}
use cs416_os.Worker.Psjf.{sched_psjf}
use cs416_os.Worker.Psjf.Round.{candidates}

-- `malloc` returns a block that is not NULL and not in use, and the new thread's number does not
-- wrap around, nor does the count of the threads that have not ended.
pub record CanCreate (w : World) (item : ℕ) : Type 0 where
  pub allocated : item ≢ 0
  pub fresh : ¬ Mem item (candidates w)
  pub fresh_of_ended : ¬ Mem item w.ended_tcbs.nodes
  pub numbers_left : w.last_created_worker_tid + 1 < 2 ^ 32
  pub places_left : w.tcbs.size + length w.q_arrival.items + 2 < 2 ^ 16

pub data Step (w : World) : World → Type 0 where
  creates : (item now : ℕ) → CanCreate w item → Step w (worker_create w item now).0
  gives_up : (now n l : ℕ) {w' : World} → sched_psjf (worker_yield w now) n l ≡ some w' → Step w w'
  preempted : (n l : ℕ) {w' : World} → sched_psjf (timer_signal_handler w) n l ≡ some w' → Step w w'
  joins_ended :
      (thread value_ptr now : ℕ) {w' : World}
      → worker_join w thread value_ptr now ≡ returned w'
      → Step w w'
  joins :
      (thread value_ptr now n l : ℕ) {w' : World}
      → sched_psjf (worker_yield (wait_for w thread value_ptr) now) n l ≡ some w'
      → Step w w'
  joins_preempted :
      (thread value_ptr n l : ℕ) {w' : World}
      → sched_psjf (timer_signal_handler (wait_for w thread value_ptr)) n l ≡ some w'
      → Step w w'
  sets_retval :
      (value_ptr : ℕ) → Step w (set_current w (record (current w) { join_retval = value_ptr }))
  exits : (value : ℕ) → Step w (worker_exit w value)
  ends :
      (now n l : ℕ) {w₁ w' : World}
      → clean_exited_worker_thread w now ≡ some w₁
      → sched_psjf w₁ n l ≡ some w'
      → Step w w'
  inits : w.current_mutex_num + 1 < 2 ^ 32 → Step w (worker_mutex_init w).0
  locks :
      (mutex now : ℕ) {w' : World} → worker_mutex_lock w mutex now ≡ some (returned w') → Step w w'
  waits :
      (mutex now n l : ℕ) {w₁ w' : World}
      → worker_mutex_lock w mutex now ≡ some (yields w₁)
      → sched_psjf w₁ n l ≡ some w'
      → Step w w'
  unlocks : (mutex : ℕ) {w' : World} → worker_mutex_unlock w mutex ≡ some w' → Step w w'
  destroys : (mutex : ℕ) {w' : World} → worker_mutex_destroy w mutex ≡ some w' → Step w w'
  removes : (mutex : ℕ) → Step w (record w { mutexes = remove_mutex w.mutexes mutex })
  removes_front : (mutex : ℕ) → Step w (record w { mutexes = after_mutex w.mutexes mutex })

-- The states that a program gets to from the library's start, if the block of `mutexes` holds NULL.
pub data Reaches (h : Store) (results : ℕ → ℕ) (item : ℕ) : World → Type 0 where
  start : Reaches h results item (init_library (initial_globals h results) false [] item)
  later : {w w' : World} → Reaches h results item w → Step w w' → Reaches h results item w'
