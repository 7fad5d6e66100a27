-- ===== src/Worker/Mutex.antt =====
-- p2/code/thread-worker.c: the mutexes. A mutex is its number; the library keeps the list of those
-- that are initialized.
pub mod Holding
use cs416_os.Prelude.{
  ℕ, ◌==◌, Bool, if◌then◌else◌, Option, none, some, List, [], ◌∷◌, ◌>>=◌, ◌>>◌, assert,
}
use cs416_os.Worker.Tcb.{Store, update, add_uint, nonexistent_thread, nonexistent_mutex}
use cs416_os.Worker.World.{World, MutexNode, current, set_current, Outcome, returned, yields}
use cs416_os.Worker.Threads.{worker_yield}

unfoldable pub fetch_from_mutexes : List MutexNode → ℕ → Option MutexNode
fetch_from_mutexes [] target = none
fetch_from_mutexes (m ∷ ms) target =
    if m.lock_num == target then some m else fetch_from_mutexes ms target

-- A write to the node that `fetch_from_mutexes` finds.
unfoldable pub set_holder : List MutexNode → ℕ → ℕ → List MutexNode
set_holder [] target tid = []
set_holder (m ∷ ms) target tid =
    if m.lock_num == target
    then record m { holder_tid = tid } ∷ ms
    else m ∷ set_holder ms target tid

unfoldable pub is_held_by : World → ℕ → ℕ → Option Bool
is_held_by w tid target = fetch_from_mutexes w.mutexes target >>= λ m. some (m.holder_tid == tid)

-- The result is the new mutex's number.
unfoldable pub worker_mutex_init : World → World × ℕ
worker_mutex_init w =
    let n = add_uint w.current_mutex_num 1 in
    (
      record w {
        current_mutex_num = n;
        mutexes = record { lock_num = n; holder_tid = nonexistent_thread } ∷ w.mutexes;
      },
      n,
    )

-- One round of the loop of `worker_mutex_lock`: the mutex is free and is taken, or the thread goes to
-- wait for it. A thread that is scheduled again makes another round.
unfoldable pub worker_mutex_lock : World → ℕ → ℕ → Option Outcome
worker_mutex_lock w mutex now = do
  free ← is_held_by w nonexistent_thread mutex
  if free
      then some (returned (record w { mutexes = set_holder w.mutexes mutex (current w).thread_id }))
      else some
          (yields (worker_yield (set_current w (record (current w) { seeking_lock = mutex })) now))

abbrev pub release_one : Store → ℕ → ℕ → Store
release_one h p mutex =
    if (h p).seeking_lock == mutex
    then update h p (record (h p) { seeking_lock = nonexistent_mutex })
    else h

unfoldable pub release_each : Store → List ℕ → ℕ → Store
release_each h [] mutex = h
release_each h (p ∷ ps) mutex = release_each (release_one h p mutex) ps mutex

unfoldable pub broadcast_lock_release : World → ℕ → World
broadcast_lock_release w mutex = record w { store = release_each w.store w.tcbs.nodes mutex }

unfoldable pub worker_mutex_unlock : World → ℕ → Option World
worker_mutex_unlock w mutex = do
  held ← is_held_by w (current w).thread_id mutex
  assert held
  some (
      broadcast_lock_release (record w { mutexes = set_holder w.mutexes mutex nonexistent_thread })
        mutex)

unfoldable pub remove_mutex : List MutexNode → ℕ → List MutexNode
remove_mutex [] target = []
remove_mutex (m ∷ ms) target = if m.lock_num == target then ms else m ∷ remove_mutex ms target

-- What `mutexes->front = front->next` leaves when `front` was read before other mutexes were initialized.
unfoldable pub after_mutex : List MutexNode → ℕ → List MutexNode
after_mutex [] target = []
after_mutex (m ∷ ms) target = if m.lock_num == target then ms else after_mutex ms target

-- The caller's variable becomes 0 too.
unfoldable pub worker_mutex_destroy : World → ℕ → Option World
worker_mutex_destroy w mutex = do
  free ← is_held_by w nonexistent_thread mutex
  w' ← (if free then some w else worker_mutex_unlock w mutex)
  some (record w' { mutexes = remove_mutex w'.mutexes mutex })
