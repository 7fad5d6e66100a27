-- ===== src/Worker/World.antt =====
-- p2/code/thread-worker.c: the library's global variables, as one record. The floating-point
-- averages are left out: nothing reads them but the final report.
use cs416_os.Prelude.{ℕ, ◌==◌, if◌then◌else◌, List}
use cs416_os.Worker.Tcb.{Tcb, Store, update}
use cs416_os.Worker.ThreadList.{ThreadList}
use cs416_os.Worker.Queue.{Queue}

-- `mutex_node`
pub record MutexNode : Type 0 where
  pub lock_num : ℕ
  pub holder_tid : ℕ

pub record World : Type 0 where
  pub store : Store
  pub last_created_worker_tid : ℕ
  pub current_mutex_num : ℕ
  pub mutexes : List MutexNode
  pub q_arrival : Queue
  pub tcbs : ThreadList
  pub ended_tcbs : ThreadList
  pub all_queue : List Queue
  pub total_quantums_elapsed : ℕ
  -- the address of the running thread's tcb, 0 once that thread is reaped
  pub running : ℕ
  pub tot_cntx_switches : ℕ
  -- `timer->it_value.tv_usec`, 0 when the timer is off
  pub timer_usec : ℕ
  -- the callers' variables that `worker_join` is given, by address
  pub results : ℕ → ℕ

-- The running thread's tcb.
abbrev pub current : World → Tcb
current w = w.store w.running

-- `running->field = …`
abbrev pub set_current : World → Tcb → World
set_current w t = record w { store = update w.store w.running t }

abbrev pub set_tcbs : World → ThreadList → World
set_tcbs w l = record w { tcbs = l }

-- `*value_ptr = value`
abbrev pub write_result : World → ℕ → ℕ → World
write_result w p v = record w { results = λ q. if p == q then v else w.results q }

-- How a library call goes on: it returns to its caller, or it has swapped to the scheduler.
pub data Outcome : Type 0 where
  returned : World → Outcome
  yields : World → Outcome
