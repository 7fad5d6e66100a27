-- ===== src/Worker/Mlfq.antt =====
-- p2/code/thread-worker.c: one round of `sched_mlfq`, the multilevel feedback queue.
pub mod Search
pub mod Entry
pub mod Levels
pub mod Boost
pub mod Boosted
pub mod Returned
pub mod Queued
pub mod Entering
pub mod Round
mod Tests
use cs416_os.Prelude.{
  ℕ, zero, suc, ◌+◌, ◌-◌, ◌*◌, ◌%◌, ◌==◌, leb, true, false, not, if◌then◌else◌, Option, some, ◌>>=◌,
  ◌>>◌, assert, get_or, set,
}
use cs416_os.Worker.Tcb.{Store, Tcb, update, is_blocked, queue_levels}
use cs416_os.Worker.ThreadList.{insert_at_front}
use cs416_os.Worker.Queue.{Queue, empty_queue, is_empty, enqueue, dequeue}
use cs416_os.Worker.World.{World, current, set_current}
use cs416_os.Worker.Psjf.{dispatch}

-- How many quantums pass between two boosts.
abbrev pub s_value_decay_usage_const : ℕ
s_value_decay_usage_const = queue_levels * 16

-- `all_queue[level]`
abbrev pub level_queue : World → ℕ → Queue
level_queue w level = get_or w.all_queue level empty_queue

abbrev pub set_level : World → ℕ → Queue → World
set_level w level q = record w { all_queue = set w.all_queue level q }

-- The loop over new arrivals, which dequeues `q_arrival.size` times.
unfoldable pub admit_arrivals : ℕ → World → Option World
admit_arrivals zero w = some w
admit_arrivals (suc n) w = elim (is_empty w.q_arrival) [
  | true ↦ some w
  | false ↦
      (dequeue w.q_arrival >>= λ r.
      admit_arrivals n (record (set_level w 0 (enqueue (level_queue w 0) r.0)) {
        q_arrival = r.1;
        tcbs = insert_at_front w.store w.tcbs r.0;
      }))
]

-- The thread that ran goes back to the queue of its level, one level down if it used up its quantum.
unfoldable pub demoted : Tcb → Tcb
demoted t =
    if t.time_quantum_used_up_fully
    then record t {
      time_quantum_used_up_fully = false;
      quantum_amt_used = 0;
      priority_level =
          if t.priority_level == queue_levels - 1 then t.priority_level else t.priority_level + 1;
    }
    else t

unfoldable pub requeue_running : World → World
requeue_running w =
    if w.running == 0
    then w
    else (let t = demoted (current w) in
        record (set_level (set_current w t) t.priority_level
          (enqueue (level_queue w t.priority_level) w.running)) { running = 0 })

-- The inner loop of `boost_all_queues`: `n` tcbs move from a level to the top.
unfoldable pub boost_level : ℕ → World → ℕ → Option World
boost_level zero w level = some w
boost_level (suc n) w level = elim (is_empty (level_queue w level)) [
  | true ↦ some w
  | false ↦
      (dequeue (level_queue w level) >>= λ r.
      let w₁ : World = set_level w level r.1 in
      let t : Tcb = w.store r.0 in
      boost_level n
        (record (set_level w₁ 0 (enqueue (level_queue w₁ 0) r.0)) {
          store = update w.store r.0 (record t {
            quantum_amt_used = 0;
            time_quantum_used_up_fully = false;
            priority_level = 0;
          });
        })
        level)
]

-- The levels from `level` on, `n` of them.
unfoldable pub boost_levels : ℕ → World → ℕ → Option World
boost_levels zero w level = some w
boost_levels (suc n) w level =
    boost_level (level_queue w level).size w level >>= λ w'. boost_levels n w' (level + 1)

unfoldable pub boost_all_queues : World → Option World
boost_all_queues w = do
  w' ← boost_levels (queue_levels - 1) w 1
  assert ((level_queue w' 0).size == w'.tcbs.size)
  some w'

unfoldable pub boost_if_due : World → Option World
boost_if_due w =
    if leb s_value_decay_usage_const w.total_quantums_elapsed
    then boost_all_queues
        (record w { total_quantums_elapsed = w.total_quantums_elapsed % s_value_decay_usage_const })
    else some w

-- The inner loop of the choice: at most `n` candidates of a queue, those blocked going to its end.
unfoldable pub search_queue : Store → ℕ → Queue → Option (ℕ × Queue)
search_queue h zero q = some (0, q)
search_queue h (suc n) q = dequeue q >>= λ r. elim (is_blocked (h r.0)) [
  | false ↦ some r
  | true ↦ search_queue h n (enqueue r.1 r.0)
]

-- The levels from `level` on, `n` of them, until a thread is found.
unfoldable pub search_levels : ℕ → World → ℕ → Option World
search_levels zero w level = some w
search_levels (suc n) w level = elim (w.running == 0) [
  | false ↦ some w
  | true ↦
      (search_queue w.store (level_queue w level).size (level_queue w level) >>= λ r.
      search_levels n (record (set_level w level r.1) { running = r.0 }) (level + 1))
]

unfoldable pub sched_mlfq : World → ℕ → ℕ → Option World
sched_mlfq w now later = do
  w₁ ← admit_arrivals w.q_arrival.size (record w { tot_cntx_switches = w.tot_cntx_switches + 1 })
  w₂ ← boost_if_due (requeue_running w₁)
  w₃ ← search_levels queue_levels w₂ 0
  assert (not (w₃.running == 0))
  some (dispatch w₃ now later)
