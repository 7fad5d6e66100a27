-- ===== src/Worker/Steps/Invariant.antt =====
-- p2/code/thread-worker.c: what holds between two steps of a program that uses the library.
use mathlib.Core.Path.{subst}
use cs416_os.Prelude.{
  ℕ, ◌≤◌, ◌<◌, ◌^◌, ◌%◌, ◌-◌, length, ◌≡◌, ◌≢◌, sym, ◌∙◌, false, some, List, [], ◌∷◌, arith, All,
}
use cs416_os.Worker.Tcb.{Tcb, is_blocked, nonexistent_thread, nonexistent_mutex}
use cs416_os.Worker.World.{World, MutexNode, current}
use cs416_os.Worker.Psjf.Round.{IsReady}
use cs416_os.Worker.Mutex.Holding.{holder_of}
use cs416_os.Worker.Steps.Frame.{Frame, All-map, All-zip, not_running, after-IsReady}

-- The mutex is initialized and some thread holds it.
abbrev pub IsHeld : List MutexNode → ℕ → Type 0
IsHeld ms m = (t : ℕ) × (holder_of ms m ≡ some t) × (t ≢ nonexistent_thread)

-- The mutex's number is one of the `n` given out, and the mutex is not free: it is held, or destroyed.
abbrev pub IsAwaited : ℕ → List MutexNode → ℕ → Type 0
IsAwaited n ms m = (m ≤ n) × (holder_of ms m ≢ some nonexistent_thread)

-- The numbers of the mutexes are not 0, at most `n`, and descend: the newest stands first.
abbrev pub IsNumbered : ℕ → List MutexNode → Type 0
IsNumbered n [] = Unit
IsNumbered n (k ∷ ms) = (0 < k.lock_num) × (k.lock_num ≤ n) × IsNumbered (k.lock_num - 1) ms

-- A thread that has not ended: its number is one given out, and a mutex that it
-- waits for is held or destroyed.
pub record IsWell (w : World) (p : ℕ) : Type 0 where
  pub address : p ≢ 0
  pub numbered : 0 < (w.store p).thread_id
  pub created : (w.store p).thread_id ≤ w.last_created_worker_tid
  pub seeks :
      (w.store p).seeking_lock ≢ nonexistent_mutex
      → IsAwaited w.current_mutex_num w.mutexes (w.store p).seeking_lock

-- The state in which the scheduler context is entered, and in which a thread runs.
pub record IsSound (w : World) : Type 0 where
  pub ready : IsReady w
  pub runner : w.running ≢ 0 → IsWell w w.running
  pub arrivals : All (IsWell w) w.q_arrival.items
  pub waiting : All (IsWell w) w.tcbs.nodes
  pub unblocked : All (λ p. is_blocked (w.store p) ≡ false) w.q_arrival.items
  pub bound : w.last_created_worker_tid < 2 ^ 32
  pub mutex_nums : IsNumbered w.current_mutex_num w.mutexes
  pub ended_count : w.ended_tcbs.size ≡ length w.ended_tcbs.nodes % 2 ^ 16

-- A thread runs, and waits for nothing.
abbrev pub IsActive : World → Type 0
IsActive w = (w.running ≢ 0) × (is_blocked (current w) ≡ false)

-- The two tcbs wait for the same.
abbrev pub SameWait : Tcb → Tcb → Type 0
SameWait t u = (t.seeking_lock ≡ u.seeking_lock) × (t.join_tid ≡ u.join_tid)

pub is_blocked-SameWait : (t u : Tcb) → SameWait t u → is_blocked t ≡ is_blocked u
unfolding is_blocked
is_blocked-SameWait t u s = ground arith

pub unblocked_waits :
    (t : Tcb)
    → is_blocked t ≡ false
    → (t.seeking_lock ≡ nonexistent_mutex) × (t.join_tid ≡ nonexistent_thread)
unfolding is_blocked
unblocked_waits t u = ground arith

-- What no call but the creation of a thread or of a mutex changes.
pub record SameTables (w w' : World) : Type 0 where
  pub frame : Frame w w'
  pub last : w'.last_created_worker_tid ≡ w.last_created_worker_tid
  pub ended : w'.ended_tcbs ≡ w.ended_tcbs

-- A mutex that the thread waits for is held or destroyed.
pub record WaitsWell (w : World) (p : ℕ) : Type 0 where
  pub seeks :
      (w.store p).seeking_lock ≢ nonexistent_mutex
      → IsAwaited w.current_mutex_num w.mutexes (w.store p).seeking_lock

module _ {w w' : World} (s : SameTables w w') where
  after-IsWell : (p : ℕ) → WaitsWell w' p → IsWell w p → IsWell w' p
  after-IsWell p f k = record {
    address = k.address;
    numbered = rw (s.frame.tid p) k.numbered;
    created = rw (s.frame.tid p, s.last) k.created;
    seeks = f.seeks;
  }

  -- A call that leaves the tables alone leaves a sound state, if all threads wait well after it.
  pub after-IsSound :
      w.running ≢ 0
      → IsNumbered w'.current_mutex_num w'.mutexes
      → WaitsWell w' w.running
      → All (λ p. WaitsWell w' p × (is_blocked (w'.store p) ≡ false)) w.q_arrival.items
      → All (WaitsWell w') w.tcbs.nodes
      → IsSound w
      → IsSound w'
  after-IsSound ne nums run arr wait v = record {
    ready = after-IsReady w w' s.frame ne v.ready;
    runner =
        λ _. subst (IsWell w') (sym s.frame.running) (after-IsWell w.running run (v.runner ne));
    arrivals =
        subst (λ q. All (IsWell w') q.items) (sym s.frame.q_arrival)
          (All-zip w.q_arrival.items (λ p f k. after-IsWell p f.0 k) arr v.arrivals);
    waiting =
        subst (λ l. All (IsWell w') l.nodes) (sym s.frame.tcbs)
          (All-zip w.tcbs.nodes after-IsWell wait v.waiting);
    unblocked = rw s.frame.q_arrival (All-map w.q_arrival.items (λ p f. f.1) arr);
    bound = rw s.last v.bound;
    mutex_nums = nums;
    ended_count = rw s.ended v.ended_count;
  }

  -- So does one that leaves the mutexes alone and by which only the running thread may come to wait.
  pub after-SameWait :
      w.running ≢ 0
      → w'.mutexes ≡ w.mutexes
      → w'.current_mutex_num ≡ w.current_mutex_num
      → WaitsWell w' w.running
      → ((p : ℕ) → p ≢ w.running → SameWait (w'.store p) (w.store p))
      → IsSound w
      → IsSound w'
  after-SameWait ne em en run same v =
      let (na, nw) = not_running w v.ready ne in
      let arrived : All (λ p. IsWell w p × (is_blocked (w.store p) ≡ false)) w.q_arrival.items =
        All-zip w.q_arrival.items (λ p k u. (k, u)) v.arrivals v.unblocked in
      after-IsSound ne (rw (em, en) v.mutex_nums) run
        (All-zip w.q_arrival.items
          (λ p n k. (others p n k.0, is_blocked-SameWait (w'.store p) (w.store p) (same p n) ∙ k.1))
          na arrived)
        (All-zip w.tcbs.nodes others nw v.waiting) v
    where
      others : (p : ℕ) → p ≢ w.running → IsWell w p → WaitsWell w' p
      others p n k = let e = same p n in record { seeks = rw (e.0, em, en) k.seeks }
