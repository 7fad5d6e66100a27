-- ===== src/Worker/Steps/Reachable.antt =====
-- p2/code/thread-worker.c: what holds in every state that a program using the library gets to.
use mathlib.Core.List.{Mem, mem-cons_self}
use mathlib.Core.Path.{subst}
use cs416_os.Prelude.{
  ℕ, ◌%◌, ◌^◌, ◌==◌, ◌≡◌, ◌≢◌, refl, sym, ap, false, inl, inr, ◌⊎◌, none, some, List, [], ◌∷◌,
  arith, All, length, if◌then◌else◌, Option-cases,
}
use cs416_os.Worker.Tcb.{Store, is_blocked}
use cs416_os.Worker.ThreadList.{contains, sub_ushort}
use cs416_os.Worker.Queue.{is_empty}
use cs416_os.Worker.World.{World, current, returned, yields, write_result}
use cs416_os.Worker.Library.{drain, cleanup_library}
use cs416_os.Worker.Threads.{worker_yield, wait_for, worker_join, timer_signal_handler}
use cs416_os.Worker.Psjf.{sched_psjf}
use cs416_os.Worker.Psjf.Round.{IsReady, Chosen, candidates, sched_psjf_lem}
use cs416_os.Worker.Psjf.Total.{IsStuck, sched_psjf_total}
use cs416_os.Worker.Steps.{Step, Reaches}
use cs416_os.Worker.Steps.Frame.{All-map, candidates_running}
use cs416_os.Worker.Steps.Invariant.{IsWell, WaitsWell, IsSound, IsActive}
use cs416_os.Worker.Steps.Calls.{
  worker_yield-IsSound, timer-IsSound, worker_join-IsSound, interrupted-IsSound,
}
use cs416_os.Worker.Steps.Exclusion.{Moves, Step-Moves}
use cs416_os.Worker.Steps.Creating.{All-append}
use cs416_os.Worker.Steps.Safety.{Reaches-IsSound}

IsWell-WaitsWell : {w : World} (p : ℕ) → IsWell w p → WaitsWell w p
IsWell-WaitsWell p k = record { seeks = k.seeks }

-- The running thread is a candidate of the round after it is preempted.
resumes :
    (w : World) (n l : ℕ)
    → IsSound w
    → IsActive w
    → (w' : World) × (sched_psjf w n l ≡ some w') × Chosen w w'
resumes w n l v act =
    let m = subst (Mem w.running) (sym (candidates_running w act.0)) mem-cons_self in
    sched_psjf_lem w n l w.running v.ready m act.1

yield-IsActive : (w : World) (now : ℕ) → IsActive w → IsActive (worker_yield w now)
unfolding worker_yield is_blocked
yield-IsActive w now act = (ground (arith, act.0), ground (arith, act.1))

timer-IsActive : (w : World) → IsActive w → IsActive (timer_signal_handler w)
unfolding timer_signal_handler is_blocked
timer-IsActive w act = (act.0, ground (arith, act.1))

drain-zero : (n : ℕ) (ps : List ℕ) → n ≡ length ps % 2 ^ 16 → drain n ps ≡ 0
unfolding drain
drain-zero n [] e = omega arith
drain-zero n (p ∷ ps) e = drain-zero (sub_ushort n 1) ps (omega arith)

-- A round of the scheduler finds all threads blocked and fails, or chooses the next one.
abbrev pub RoundEnds : World → ℕ → ℕ → Type 0
RoundEnds w n l =
    (IsStuck w × (sched_psjf w n l ≡ none))
    ⊎ ((w' : World) × (sched_psjf w n l ≡ some w') × Chosen w w')

-- What a join comes to: it returns with the ended thread's value, or the running thread waits and
-- either no thread can run, or the next one does.
pub data JoinEnds (w : World) (thread value_ptr now n l : ℕ) : Type 0 where
  has_value :
      (p : ℕ) (w' : World)
      → contains w.store w.ended_tcbs thread ≡ some p
      → worker_join w thread value_ptr now ≡ returned w'
      → (value_ptr ≢ 0 → w'.results value_ptr ≡ (w.store p).ret_value)
      → (value_ptr ≡ 0 → w' ≡ w)
      → JoinEnds w thread value_ptr now n l
  deadlocks :
      (w₁ : World)
      → contains w.store w.ended_tcbs thread ≡ none
      → worker_join w thread value_ptr now ≡ yields w₁
      → IsStuck w₁
      → sched_psjf w₁ n l ≡ none
      → JoinEnds w thread value_ptr now n l
  switches :
      (w₁ w' : World)
      → contains w.store w.ended_tcbs thread ≡ none
      → worker_join w thread value_ptr now ≡ yields w₁
      → sched_psjf w₁ n l ≡ some w'
      → Chosen w₁ w'
      → JoinEnds w thread value_ptr now n l

join_lem :
    (w : World) (thread value_ptr now n l : ℕ)
    → IsSound w
    → IsActive w
    → JoinEnds w thread value_ptr now n l
unfolding worker_join
join_lem w thread value_ptr now n l v act =
    elim (Option-cases (contains w.store w.ended_tcbs thread)) [
      | inr (p, e) ↦
          has_value p (if value_ptr == 0 then w else write_result w value_ptr (w.store p).ret_value)
            e (ground arith) (λ ne. ground arith) (λ z. ground arith)
      | inl e ↦
          let w₁ = worker_yield (wait_for w thread value_ptr) now in
          let yields_now : worker_join w thread value_ptr now ≡ yields w₁ = ground arith in
          let v₁ = worker_join-IsSound w act v thread value_ptr now w₁ yields_now in
          elim (sched_psjf_total w₁ n l v₁.ready) [
            | inl (stuck, f) ↦ deadlocks w₁ e yields_now stuck f
            | inr (w', run, c) ↦ switches w₁ w' e yields_now run c
          ]
    ]

-- No other thread is alive and no mutex is initialized.
abbrev pub IsAlone : World → Type 0
IsAlone w = (w.q_arrival.items ≡ []) × (w.tcbs.nodes ≡ []) × (w.mutexes ≡ [])

empty_cases {ℓ} : {A : Type ℓ} (xs : List A) → (xs ≡ []) ⊎ (length xs ≢ 0)
empty_cases [] = inl refl
empty_cases (x ∷ xs) = inr (λ e. omega arith)

cleanup_lem :
    (w : World)
    → IsSound w
    → (IsAlone w × (w' : World) × (cleanup_library w false ≡ some w'))
      ⊎ ((¬ IsAlone w) × (cleanup_library w false ≡ none))
unfolding cleanup_library is_empty
cleanup_lem w v =
    let arrivals = v.ready.arrivals in
    let counted = v.ready.sized.counted in
    let drained = drain-zero w.ended_tcbs.size w.ended_tcbs.nodes v.ended_count in
    elim (empty_cases w.q_arrival.items) [
      | inr some_arrival ↦ inr (λ a. some_arrival (ap length a.0), ground arith)
      | inl no_arrival ↦ elim (empty_cases w.tcbs.nodes) [
        | inr some_waiting ↦ inr (λ a. some_waiting (ap length a.1), ground arith)
        | inl no_waiting ↦ elim (empty_cases w.mutexes) [
          | inr some_mutex ↦ inr (λ a. some_mutex (ap length a.2), ground arith)
          | inl no_mutex ↦ inl (
            (no_arrival, no_waiting, no_mutex),
            record w {
              ended_tcbs = record { size = drain w.ended_tcbs.size w.ended_tcbs.nodes; nodes = [] };
            },
            ground arith,
          )
        ]
      ]
    ]

module _ (h : Store) (results : ℕ → ℕ) (item : ℕ) where
  -- In every state that a program using the library under the shortest-job-first scheduler gets to
  -- from the library's start, at which the block of mutexes holds NULL and the main thread's tcb
  -- has an address other than 0, a thread runs that is not blocked, the arrivals and the run queue
  -- are counted and have room for the running thread, the run queue is sorted by processor time
  -- used, and no two of the threads that have not ended have the same number.
  pub Reaches-IsReady :
      (w : World)
      → item ≢ 0
      → Reaches h results item w
      → IsReady w × (w.running ≢ 0) × (is_blocked (current w) ≡ false)
  Reaches-IsReady w nz r =
      let (v, act) = Reaches-IsSound h results item nz r in (v.ready, act.0, act.1)

  -- In every state that a program using the library under the shortest-job-first scheduler gets to
  -- from the library's start, at which the block of mutexes holds NULL and the main thread's tcb
  -- has an address other than 0, each thread that runs, waits in the run queue or has newly arrived
  -- waits only for a mutex whose number was given out and that is not free: some thread holds it,
  -- or it is not initialized any more.
  pub Reaches-WaitsWell :
      (w : World) → item ≢ 0 → Reaches h results item w → All (WaitsWell w) (candidates w)
  Reaches-WaitsWell w nz r =
      let (v, act) = Reaches-IsSound h results item nz r in
      subst (All (WaitsWell w)) (sym (candidates_running w act.0)) (
        IsWell-WaitsWell w.running (v.runner act.0),
        All-append (WaitsWell w) w.q_arrival.items w.tcbs.nodes
            (All-map w.q_arrival.items IsWell-WaitsWell v.arrivals)
            (All-map w.tcbs.nodes IsWell-WaitsWell v.waiting),
      )

  -- In every state that a program using the library under the shortest-job-first scheduler gets to
  -- from the library's start, at which the block of mutexes holds NULL and the main thread's tcb
  -- has an address other than 0, a thread that yields, and one that the timer interrupts between
  -- two calls, is followed by a round of the scheduler that fails no assertion and ends with an
  -- unblocked thread running that has used no more processor time than any other unblocked one,
  -- while no thread is lost or duplicated; when the timer interrupts worker_join after it has
  -- stored what the caller waits for, either all threads are blocked and the round fails, or it
  -- ends in the same way.
  pub Reaches-resumes :
      (w : World) (thread value_ptr now n l : ℕ)
      → item ≢ 0
      → Reaches h results item w
      → ((w' : World) × (sched_psjf (worker_yield w now) n l ≡ some w')
          × Chosen (worker_yield w now) w')
        × ((w' : World) × (sched_psjf (timer_signal_handler w) n l ≡ some w')
            × Chosen (timer_signal_handler w) w')
        × RoundEnds (timer_signal_handler (wait_for w thread value_ptr)) n l
  Reaches-resumes w thread value_ptr now n l nz r =
      let (v, act) = Reaches-IsSound h results item nz r in
      (
        resumes (worker_yield w now) n l (worker_yield-IsSound w act v now)
            (yield-IsActive w now act),
        resumes (timer_signal_handler w) n l (timer-IsSound w act v) (timer-IsActive w act),
        sched_psjf_total _ n l (interrupted-IsSound w act v thread value_ptr).ready,
      )

  -- In every state that a program using the library under the shortest-job-first scheduler gets to
  -- from the library's start, at which the block of mutexes holds NULL and the main thread's tcb
  -- has an address other than 0, a further step (a call of the running thread, the timer's signal
  -- or the thread's end, with the round of the scheduler that it leads to) leaves a mutex's holder
  -- as it was, or the running thread takes the mutex while it is free, or releases it while it
  -- holds it, or the mutex is initialized and free, or is not initialized after the step.
  pub Reaches-Moves :
      (w w' : World) (m : ℕ) → item ≢ 0 → Reaches h results item w → Step w w' → Moves w w' m
  Reaches-Moves w w' m nz r s =
      let (v, act) = Reaches-IsSound h results item nz r in Step-Moves s v act m

  -- In every state that a program using the library under the shortest-job-first scheduler gets to
  -- from the library's start, at which the block of mutexes holds NULL and the main thread's tcb
  -- has an address other than 0, a call of worker_join that the timer does not interrupt returns
  -- with the value of the thread if that has ended, written only if the caller gave an address;
  -- otherwise the caller yields, and either all threads are blocked and the scheduler's round
  -- fails, or the round ends with an unblocked thread running that has used no more processor time
  -- than any other unblocked one.
  pub Reaches-JoinEnds :
      (w : World) (thread value_ptr now n l : ℕ)
      → item ≢ 0
      → Reaches h results item w
      → JoinEnds w thread value_ptr now n l
  Reaches-JoinEnds w thread value_ptr now n l nz r =
      let (v, act) = Reaches-IsSound h results item nz r in
      join_lem w thread value_ptr now n l v act

  -- In every state that a program using the library under the shortest-job-first scheduler gets to
  -- from the library's start, at which the block of mutexes holds NULL and the main thread's tcb
  -- has an address other than 0, cleanup_library, called at exit, fails no assertion if the running
  -- thread is the only one that has not ended and all mutexes are destroyed, and fails one
  -- otherwise.
  pub Reaches-cleanup_library :
      (w : World)
      → item ≢ 0
      → Reaches h results item w
      → (IsAlone w × (w' : World) × (cleanup_library w false ≡ some w'))
        ⊎ ((¬ IsAlone w) × (cleanup_library w false ≡ none))
  Reaches-cleanup_library w nz r = cleanup_lem w (Reaches-IsSound h results item nz r).0
