-- ===== src/Worker/Steps/Calls.antt =====
-- p2/code/thread-worker.c: yielding, the timer's signal, joining and exiting keep
-- the state sound.
use mathlib.Core.Path.{subst}
use cs416_os.Prelude.{ℕ, ◌==◌, ◌≡◌, refl, ap, ◌∙◌, inl, inr, none, arith, Option-cases, Bool-cases}
use cs416_os.Worker.Tcb.{Tcb, is_blocked, add_uint}
use cs416_os.Worker.ThreadList.{contains}
use cs416_os.Worker.World.{World, Outcome, current, set_current, returned, yields}
use cs416_os.Worker.Threads.{worker_yield, worker_exit, wait_for, worker_join, timer_signal_handler}
use cs416_os.Worker.Steps.Invariant.{IsSound, IsActive, unblocked_waits}
use cs416_os.Worker.Steps.Own.{
  outcome_world, OwnWrite, OwnWrite-IsSound, OwnWrite-total, set_current-OwnWrite, OwnWrite-trans,
  yielded, yielded-SameWait, worker_yield-OwnWrite, quiet-IsSound, waits-OwnWrite, waits-SameWait,
}

module _ (w : World) (act : IsActive w) (v : IsSound w) where
  pub worker_yield-IsSound : (now : ℕ) → IsSound (worker_yield w now)
  worker_yield-IsSound now =
      quiet-IsSound (yielded w now) (worker_yield-OwnWrite w now) (yielded-SameWait w now) act v

  pub timer-IsSound : IsSound (timer_signal_handler w)
  unfolding timer_signal_handler
  timer-IsSound =
      quiet-IsSound _
        (OwnWrite-total (add_uint w.total_quantums_elapsed 1) (set_current-OwnWrite w _ refl))
        (refl, refl) act v

  pub retval-IsSound :
      (value_ptr : ℕ) → IsSound (set_current w (record (current w) { join_retval = value_ptr }))
  retval-IsSound value_ptr = quiet-IsSound _ (set_current-OwnWrite w _ refl) (refl, refl) act v

  pub retval-IsActive :
      (value_ptr : ℕ) → IsActive (set_current w (record (current w) { join_retval = value_ptr }))
  unfolding is_blocked
  retval-IsActive value_ptr = (act.0, ground (arith, act.1))

  pub worker_exit-IsSound : (value : ℕ) → IsSound (worker_exit w value)
  unfolding worker_exit
  worker_exit-IsSound value = quiet-IsSound _ (set_current-OwnWrite w _ refl) (refl, refl) act v

  pub worker_exit-IsActive : (value : ℕ) → IsActive (worker_exit w value)
  unfolding worker_exit is_blocked
  worker_exit-IsActive value = (act.0, ground (arith, act.1))

-- What `worker_join` has done when it returns, or swaps to the scheduler.
pub data Joined (w : World) (thread value_ptr now : ℕ) : Outcome → Type 0 where
  had_ended :
      (results : ℕ → ℕ) → Joined w thread value_ptr now (returned (record w { results = results }))
  had_not :
      contains w.store w.ended_tcbs thread ≡ none
      → Joined w thread value_ptr now (yields (worker_yield (wait_for w thread value_ptr) now))

pub worker_join-Joined :
    (w : World) (thread value_ptr now : ℕ)
    → Joined w thread value_ptr now (worker_join w thread value_ptr now)
unfolding worker_join
worker_join-Joined w thread value_ptr now =
    elim (Option-cases (contains w.store w.ended_tcbs thread)) [
      | inl e ↦ rw (worker_join, e) (had_not e)
      | inr (p, e) ↦
          rw (worker_join, e)
            (elim (Bool-cases (value_ptr == 0)) [
              | inl null ↦ rw null (had_ended w.results)
              | inr some_ptr ↦ rw some_ptr (had_ended _)
            ])
    ]

module _ (w : World) (act : IsActive w) (v : IsSound w) where
  -- What `worker_join` stores, and the thread does then, leaves the mutexes that are waited for.
  waiting-IsSound :
      {w' : World} (t : Tcb)
      → OwnWrite w w' t
      → (w'.store w.running).seeking_lock ≡ (current w).seeking_lock
      → IsSound w'
  waiting-IsSound t o same =
      OwnWrite-IsSound t o act.0
        (record { seeks = λ ne. absurd (ne (same ∙ (unblocked_waits (current w) act.1).0)) }) v

  pub joining-IsSound :
      (thread value_ptr now : ℕ) → IsSound (worker_yield (wait_for w thread value_ptr) now)
  joining-IsSound thread value_ptr now =
      let t : Tcb = record (current w) { join_tid = thread; join_retval = value_ptr } in
      waiting-IsSound _ (waits-OwnWrite w t now refl) (waits-SameWait w t now refl).0

  -- The timer fires once `worker_join` has stored what it waits for.
  pub interrupted-IsSound :
      (thread value_ptr : ℕ) → IsSound (timer_signal_handler (wait_for w thread value_ptr))
  unfolding timer_signal_handler
  interrupted-IsSound thread value_ptr =
      let w₁ = wait_for w thread value_ptr in
      waiting-IsSound _
        (OwnWrite-trans (set_current-OwnWrite w _ refl)
          (OwnWrite-total (add_uint w.total_quantums_elapsed 1) (set_current-OwnWrite w₁ _ refl)))
        (ground arith)

  pub worker_join-IsSound :
      (thread value_ptr now : ℕ) (w₁ : World)
      → worker_join w thread value_ptr now ≡ yields w₁
      → IsSound w₁
  worker_join-IsSound thread value_ptr now w₁ e =
      by_case (worker_join w thread value_ptr now) (worker_join-Joined w thread value_ptr now) e
    where
      by_case : (o : Outcome) → Joined w thread value_ptr now o → o ≡ yields w₁ → IsSound w₁
      by_case (returned _) (had_ended results) e = cc
      by_case (yields _) (had_not n) e =
          subst IsSound (ap outcome_world e) (joining-IsSound thread value_ptr now)

  -- A write to a caller's variable.
  results-OwnWrite : (results : ℕ → ℕ) → OwnWrite w (record w { results = results }) (current w)
  results-OwnWrite results = record {
    store = λ q. ground arith;
    tid = refl;
    running = refl;
    tcbs = refl;
    q_arrival = refl;
    last = refl;
    ended = refl;
    mutexes = refl;
    mutex_num = refl;
  }

  pub worker_join-returned :
      (thread value_ptr now : ℕ) (w₁ : World)
      → worker_join w thread value_ptr now ≡ returned w₁
      → IsSound w₁ × IsActive w₁
  worker_join-returned thread value_ptr now w₁ e =
      by_case (worker_join w thread value_ptr now) (worker_join-Joined w thread value_ptr now) e
    where
      by_case :
          (o : Outcome)
          → Joined w thread value_ptr now o
          → o ≡ returned w₁
          → IsSound w₁ × IsActive w₁
      by_case (returned _) (had_ended results) e =
          subst (λ w. IsSound w × IsActive w) (ap outcome_world e)
            (quiet-IsSound (current w) (results-OwnWrite results) (refl, refl) act v, act)
      by_case (yields _) (had_not n) e = cc
