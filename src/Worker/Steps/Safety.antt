-- ===== src/Worker/Steps/Safety.antt =====
-- p2/code/thread-worker.c: what holds however a program uses the library.
use mathlib.Core.List.{Nodup-cons, not-mem-nil, Pairwise}
use cs416_os.Prelude.{ℕ, ◌≡◌, ◌≢◌, refl, false, [], arith, ◌==◌}
use cs416_os.Worker.Tcb.{Store, is_blocked}
use cs416_os.Worker.World.{World}
use cs416_os.Worker.Library.{initial_globals, init_library}
use cs416_os.Worker.Mutex.{worker_mutex_init}
use cs416_os.Worker.Steps.{
  Step, creates, gives_up, preempted, joins_ended, joins, joins_preempted, sets_retval, exits, ends,
  inits, locks, waits, unlocks, destroys, removes, removes_front, Reaches, start, later,
}
use cs416_os.Worker.Steps.Invariant.{IsSound, IsActive}
use cs416_os.Worker.Steps.Round.{round-IsSound}
use cs416_os.Worker.Steps.Calls.{
  worker_yield-IsSound, timer-IsSound, joining-IsSound, interrupted-IsSound, worker_join-returned,
  retval-IsSound, retval-IsActive, worker_exit-IsSound, worker_exit-IsActive,
}
use cs416_os.Worker.Steps.Locking.{
  init-IsSound, worker_mutex_lock-IsSound, worker_mutex_lock-IsActive,
}
use cs416_os.Worker.Steps.Releasing.{
  worker_mutex_unlock-IsSound, worker_mutex_destroy-IsSound, removed-IsSound, after_mutex-IsSound,
}
use cs416_os.Worker.Steps.Creating.{worker_create-IsSound}
use cs416_os.Worker.Steps.Ends.{clean-IsSound}

pub Step-IsSound : {w w' : World} → Step w w' → IsSound w × IsActive w → IsSound w' × IsActive w'
unfolding worker_mutex_init
Step-IsSound {w} (creates item now can) (v, act) = worker_create-IsSound w item now can act v
Step-IsSound {w} (gives_up now n l {w' = w'} e) (v, act) =
    round-IsSound _ w' n l e (worker_yield-IsSound w act v now)
Step-IsSound {w} (preempted n l {w' = w'} e) (v, act) =
    round-IsSound _ w' n l e (timer-IsSound w act v)
Step-IsSound {w} (joins_ended thread p now {w' = w'} e) (v, act) =
    worker_join-returned w act v thread p now w' e
Step-IsSound {w} (joins thread p now n l {w' = w'} r) (v, act) =
    round-IsSound _ w' n l r (joining-IsSound w act v thread p now)
Step-IsSound {w} (joins_preempted thread p n l {w' = w'} r) (v, act) =
    round-IsSound _ w' n l r (interrupted-IsSound w act v thread p)
Step-IsSound {w} (sets_retval value_ptr) (v, act) =
    (retval-IsSound w act v value_ptr, retval-IsActive w act v value_ptr)
Step-IsSound {w} (exits value) (v, act) =
    (worker_exit-IsSound w act v value, worker_exit-IsActive w act v value)
Step-IsSound {w} (ends now n l {w₁ = w₁} {w' = w'} e r) (v, act) =
    round-IsSound w₁ w' n l r (clean-IsSound w now act v w₁ e)
Step-IsSound {w} (inits b) (v, act) = (init-IsSound w b act v, act)
Step-IsSound {w} (locks m now {w' = w'} e) (v, act) =
    (worker_mutex_lock-IsSound w act v m now _ e, worker_mutex_lock-IsActive w act v m now w' e)
Step-IsSound {w} (waits m now n l {w₁ = w₁} {w' = w'} e r) (v, act) =
    round-IsSound w₁ w' n l r (worker_mutex_lock-IsSound w act v m now _ e)
Step-IsSound {w} (unlocks m {w' = w'} e) (v, act) =
    let (v', act', _) = worker_mutex_unlock-IsSound w act v m w' e in (v', act')
Step-IsSound {w} (destroys m {w' = w'} e) (v, act) = worker_mutex_destroy-IsSound w act v m w' e
Step-IsSound {w} (removes m) (v, act) = (removed-IsSound w act v m, act)
Step-IsSound {w} (removes_front m) (v, act) = (after_mutex-IsSound w act v m, act)

start-IsSound :
    (h : Store) (results : ℕ → ℕ) (item : ℕ)
    → item ≢ 0
    → IsSound (init_library (initial_globals h results) false [] item)
      × IsActive (init_library (initial_globals h results) false [] item)
unfolding init_library is_blocked
start-IsSound h results item nz = (
  record {
    ready = record {
      arrivals = refl;
      sized = record { counted = refl; small = omega arith };
      room = omega arith;
      sorted = tt;
      distinct =
          let test : (item == 0) ≡ false = ground arith in
          rw test (Nodup-cons.1 (not-mem-nil, Pairwise.nil));
    };
    runner = λ _. record {
      address = nz;
      numbered = ground arith;
      created = ground arith;
      seeks = λ ne. absurd (ne (ground arith));
    };
    arrivals = tt;
    waiting = tt;
    unblocked = tt;
    bound = omega arith;
    mutex_nums = tt;
    ended_count = refl;
  },
  (nz, ground arith),
)

pub Reaches-IsSound :
    (h : Store) (results : ℕ → ℕ) (item : ℕ) {w : World}
    → item ≢ 0
    → Reaches h results item w
    → IsSound w × IsActive w
Reaches-IsSound h results item nz start = start-IsSound h results item nz
Reaches-IsSound h results item nz (later r s) = Step-IsSound s (Reaches-IsSound h results item nz r)
