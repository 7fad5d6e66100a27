-- ===== src/Worker/Psjf/Dispatch.antt =====
-- p2/code/thread-worker.c: what `dispatch`, at the end of `sched_psjf`, leaves as it is.
use cs416_os.Prelude.{ℕ, ◌≡◌, List, [], ◌∷◌, arith}
use cs416_os.Worker.Tcb.{Store, Tcb, is_blocked}
use cs416_os.Worker.ThreadList.{}
use cs416_os.Worker.ThreadList.Sorted.{Ascends, IsSorted}
use cs416_os.Worker.ThreadList.Remove.{}
use cs416_os.Worker.World.{World}
use cs416_os.Worker.Psjf.{dispatch, first_run, set_timer}

-- What `dispatch` leaves alone of a tcb: all but the times of its scheduling.
pub record SameThread (t u : Tcb) : Type 0 where
  pub tid : t.thread_id ≡ u.thread_id
  pub quantums : t.quantums_elapsed ≡ u.quantums_elapsed
  pub amount : t.quantum_amt_used ≡ u.quantum_amt_used
  pub joining : t.join_tid ≡ u.join_tid
  pub seeking : t.seeking_lock ≡ u.seeking_lock

pub dispatch-SameThread :
    (w : World) (now later p : ℕ) → SameThread ((dispatch w now later).store p) (w.store p)
unfolding dispatch first_run set_timer
dispatch-SameThread w now later p = record {
  tid = ground arith;
  quantums = ground arith;
  amount = ground arith;
  joining = ground arith;
  seeking = ground arith;
}

pub dispatch_fields :
    (w : World) (now later : ℕ)
    → let w' = dispatch w now later in
      (w'.running ≡ w.running) × (w'.tcbs ≡ w.tcbs) × (w'.q_arrival ≡ w.q_arrival)
unfolding dispatch first_run set_timer
dispatch_fields w now later = (ground arith, ground arith, ground arith)

pub dispatch_tables :
    (w : World) (now later : ℕ)
    → let w' = dispatch w now later in
      (w'.mutexes ≡ w.mutexes)
      × (w'.ended_tcbs ≡ w.ended_tcbs)
      × (w'.last_created_worker_tid ≡ w.last_created_worker_tid)
      × (w'.current_mutex_num ≡ w.current_mutex_num)
unfolding dispatch first_run set_timer
dispatch_tables w now later = (ground arith, ground arith, ground arith, ground arith)

Ascends-same :
    (h h' : Store) (p : ℕ) (ns : List ℕ)
    → ((q : ℕ) → SameThread (h' q) (h q))
    → Ascends h p ns
    → Ascends h' p ns
Ascends-same h h' p [] same s = tt
Ascends-same h h' p (q ∷ ns) same s =
    (ground (arith, same p, same q), Ascends-same h h' q ns same s.1)

pub IsSorted-same :
    (h h' : Store) (ns : List ℕ)
    → ((q : ℕ) → SameThread (h' q) (h q))
    → IsSorted h ns
    → IsSorted h' ns
IsSorted-same h h' [] same s = tt
IsSorted-same h h' (p ∷ ns) same s = Ascends-same h h' p ns same s

pub is_blocked-same : {t u : Tcb} → SameThread t u → is_blocked t ≡ is_blocked u
unfolding is_blocked
is_blocked-same same = ground arith
