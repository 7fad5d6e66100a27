-- ===== src/Worker/Steps/Own.antt =====
-- p2/code/thread-worker.c: calls that write only to the running thread's tcb, as yielding does.
use cs416_os.Prelude.{ℕ, ◌==◌, ◌≡◌, ◌≢◌, refl, ap, ◌∙◌, false, arith, if◌then◌else◌}
use cs416_os.Worker.Tcb.{Tcb, is_blocked}
use cs416_os.Worker.World.{World, Outcome, current, set_current, returned, yields}
use cs416_os.Worker.Threads.{worker_yield}
use cs416_os.Worker.Steps.Invariant.{
  IsSound, IsActive, SameTables, SameWait, WaitsWell, after-SameWait, unblocked_waits,
  is_blocked-SameWait,
}

-- A call that writes only to the running thread's tcb, and keeps its number.
pub record OwnWrite (w w' : World) (t : Tcb) : Type 0 where
  pub store : (q : ℕ) → w'.store q ≡ (if w.running == q then t else w.store q)
  pub tid : t.thread_id ≡ (current w).thread_id
  pub running : w'.running ≡ w.running
  pub tcbs : w'.tcbs ≡ w.tcbs
  pub q_arrival : w'.q_arrival ≡ w.q_arrival
  pub last : w'.last_created_worker_tid ≡ w.last_created_worker_tid
  pub ended : w'.ended_tcbs ≡ w.ended_tcbs
  pub mutexes : w'.mutexes ≡ w.mutexes
  pub mutex_num : w'.current_mutex_num ≡ w.current_mutex_num

pub OwnWrite-SameTables : {w w' : World} (t : Tcb) → OwnWrite w w' t → SameTables w w'
OwnWrite-SameTables t o = record {
  frame = record {
    tid = λ q. ground (arith, o.store q, o.tid);
    usage = λ q ne. record {
      tid = ground (arith, o.store q);
      quantums = ground (arith, o.store q);
      amount = ground (arith, o.store q);
    };
    running = o.running;
    tcbs = o.tcbs;
    q_arrival = o.q_arrival;
  };
  last = o.last;
  ended = o.ended;
}

own_write : {w w' : World} {t : Tcb} → OwnWrite w w' t → w'.store w.running ≡ t
own_write {w} o = ground (arith, o.store w.running)

-- It keeps the state sound, if a mutex that the tcb waits for is held or destroyed.
pub OwnWrite-IsSound :
    {w w' : World} (t : Tcb)
    → OwnWrite w w' t
    → w.running ≢ 0
    → WaitsWell w' w.running
    → IsSound w
    → IsSound w'
OwnWrite-IsSound {w} {w'} t o ne run v =
    after-SameWait (OwnWrite-SameTables t o) ne o.mutexes o.mutex_num run
      (λ p n. (ground (arith, o.store p), ground (arith, o.store p))) v

-- A thread that waits for nothing waits well.
pub free-WaitsWell : (w : World) (p : ℕ) → is_blocked (w.store p) ≡ false → WaitsWell w p
free-WaitsWell w p u =
    let (s, j) = unblocked_waits (w.store p) u in record { seeks = λ ne. absurd (ne s) }

pub OwnWrite-trans :
    {w w₁ w₂ : World} {t₁ t₂ : Tcb} → OwnWrite w w₁ t₁ → OwnWrite w₁ w₂ t₂ → OwnWrite w w₂ t₂
OwnWrite-trans {w} {w₁} a b = record {
  store = λ q. ground (arith, a.store q, b.store q, a.running);
  tid =
      b.tid
      ∙ ap (λ r. (w₁.store r).thread_id) a.running
      ∙ ap (λ t. t.thread_id) (own_write a)
      ∙ a.tid;
  running = b.running ∙ a.running;
  tcbs = b.tcbs ∙ a.tcbs;
  q_arrival = b.q_arrival ∙ a.q_arrival;
  last = b.last ∙ a.last;
  ended = b.ended ∙ a.ended;
  mutexes = b.mutexes ∙ a.mutexes;
  mutex_num = b.mutex_num ∙ a.mutex_num;
}

pub set_current-OwnWrite :
    (w : World) (t : Tcb) → t.thread_id ≡ (current w).thread_id → OwnWrite w (set_current w t) t
set_current-OwnWrite w t e = record {
  store = λ q. refl;
  tid = e;
  running = refl;
  tcbs = refl;
  q_arrival = refl;
  last = refl;
  ended = refl;
  mutexes = refl;
  mutex_num = refl;
}

-- The count of quantums is no part of what threads wait for.
pub OwnWrite-total :
    {w w' : World} {t : Tcb} (n : ℕ)
    → OwnWrite w w' t
    → OwnWrite w (record w' { total_quantums_elapsed = n }) t
OwnWrite-total n o = record {
  store = o.store;
  tid = o.tid;
  running = o.running;
  tcbs = o.tcbs;
  q_arrival = o.q_arrival;
  last = o.last;
  ended = o.ended;
  mutexes = o.mutexes;
  mutex_num = o.mutex_num;
}

-- The tcb that `worker_yield` leaves.
pub yielded : World → ℕ → Tcb
unfolding worker_yield
yielded w now = current (worker_yield w now)

pub yielded-SameWait : (w : World) (now : ℕ) → SameWait (yielded w now) (current w)
unfolding yielded worker_yield
yielded-SameWait w now = (ground arith, ground arith)

pub worker_yield-OwnWrite : (w : World) (now : ℕ) → OwnWrite w (worker_yield w now) (yielded w now)
unfolding worker_yield yielded
worker_yield-OwnWrite w now = record {
  store = λ q. ground arith;
  tid = ground arith;
  running = ground arith;
  tcbs = ground arith;
  q_arrival = ground arith;
  last = ground arith;
  ended = ground arith;
  mutexes = ground arith;
  mutex_num = ground arith;
}

-- A write after which the thread waits as before, which is for nothing.
pub quiet-IsSound :
    {w w' : World} (t : Tcb)
    → OwnWrite w w' t
    → SameWait t (current w)
    → IsActive w
    → IsSound w
    → IsSound w'
quiet-IsSound {w} {w'} t o same act v =
    OwnWrite-IsSound t o act.0
      (free-WaitsWell w' w.running
        (ap is_blocked (own_write o) ∙ is_blocked-SameWait t (current w) same ∙ act.1))
      v

-- A call that has the running thread wait and then yields.
module _ (w : World) (t : Tcb) (now : ℕ) (e : t.thread_id ≡ (current w).thread_id) where
  pub waits-OwnWrite :
      OwnWrite w (worker_yield (set_current w t) now) (yielded (set_current w t) now)
  waits-OwnWrite =
      OwnWrite-trans (set_current-OwnWrite w t e) (worker_yield-OwnWrite (set_current w t) now)

  pub waits-SameWait : SameWait ((worker_yield (set_current w t) now).store w.running) t
  waits-SameWait =
      let s = yielded-SameWait (set_current w t) now in
      let c : current (set_current w t) ≡ t = ground arith in
      let o = own_write waits-OwnWrite in
      (
        ap (λ u. u.seeking_lock) o ∙ s.0 ∙ ap (λ u. u.seeking_lock) c,
        ap (λ u. u.join_tid) o ∙ s.1 ∙ ap (λ u. u.join_tid) c,
      )

-- The state in an outcome.
abbrev pub outcome_world : Outcome → World
outcome_world (returned w) = w
outcome_world (yields w) = w
