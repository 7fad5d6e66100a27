-- ===== src/Worker/Steps/Locking.antt =====
-- p2/code/thread-worker.c: the operations on mutexes keep the state sound.
use mathlib.Core.Path.{subst}
use mathlib.Core.Option.{some-injective}
use cs416_os.Prelude.{
  ℕ, zero, suc, ◌+◌, ◌-◌, ◌^◌, ◌<◌, ◌==◌, ◌≡◌, ◌≢◌, refl, sym, ◌∙◌, false, inl, inr, none, some,
  Option, ◌∷◌, arith, Option-cases,
}
use cs416_os.Worker.Tcb.{Tcb, nonexistent_thread, add_uint}
use cs416_os.Worker.World.{World, Outcome, current, set_current, returned, yields}
use cs416_os.Worker.Threads.{worker_yield}
use cs416_os.Worker.Mutex.{set_holder, worker_mutex_init, worker_mutex_lock}
use cs416_os.Worker.Mutex.Holding.{holder_of, is_held_by-some, is_held_by-none}
use cs416_os.Worker.Steps.Invariant.{IsHeld, IsAwaited, IsSound, IsActive}
use cs416_os.Worker.Steps.Own.{outcome_world, OwnWrite-IsSound, waits-OwnWrite, waits-SameWait}
use cs416_os.Worker.Steps.Mutexes.{
  set_holder-IsNumbered, IsNumbered-holder, set_holder-IsAwaited, mutexes-IsSound,
}

-- The number of a new mutex is not 0 and none of those given out.
pub init-IsSound :
    (w : World)
    → w.current_mutex_num + 1 < 2 ^ 32
    → IsActive w
    → IsSound w
    → IsSound (worker_mutex_init w).0
unfolding worker_mutex_init holder_of
init-IsSound w b act v =
    mutexes-IsSound w (add_uint w.current_mutex_num 1) _
      (ground arith, ground arith, rw last v.mutex_nums) awaited act v
  where
    last : add_uint w.current_mutex_num 1 - 1 ≡ w.current_mutex_num
    last = omega arith

    awaited :
        (k : ℕ)
        → IsAwaited w.current_mutex_num w.mutexes k
        → IsAwaited
            (add_uint w.current_mutex_num 1)
            (record { lock_num = add_uint w.current_mutex_num 1; holder_tid = nonexistent_thread }
              ∷ w.mutexes)
            k
    awaited k (l, nf) =
        let e : add_uint w.current_mutex_num 1 ≡ w.current_mutex_num + 1 = omega arith in
        let miss : (add_uint w.current_mutex_num 1 == k) ≡ false = ground arith in
        (omega arith, rw miss nf)

-- What a round of the loop of `worker_mutex_lock` has done.
pub data Locked (w : World) (m now : ℕ) : Option Outcome → Type 0 where
  unknown : Locked w m now none
  taken :
      holder_of w.mutexes m ≡ some nonexistent_thread
      → Locked w m now
          (some (returned (record w { mutexes = set_holder w.mutexes m (current w).thread_id })))
  busy :
      IsHeld w.mutexes m
      → Locked w m now (
          some
            (yields (worker_yield (set_current w (record (current w) { seeking_lock = m })) now)))

pub worker_mutex_lock-Locked : (w : World) (m now : ℕ) → Locked w m now (worker_mutex_lock w m now)
unfolding worker_mutex_lock
worker_mutex_lock-Locked w m now = elim (Option-cases (holder_of w.mutexes m)) [
  | inl e ↦ rw (is_held_by-none w nonexistent_thread m e) unknown
  | inr (zero, e) ↦ rw (is_held_by-some w nonexistent_thread m 0 e) (taken e)
  | inr (suc t, e) ↦
      let test : (suc t == nonexistent_thread) ≡ false = ground arith in
      rw (is_held_by-some w nonexistent_thread m (suc t) e, test) (busy (suc t, e, omega arith))
]

module _ (w : World) (act : IsActive w) (v : IsSound w) where
  -- The running thread's number is not 0.
  own_number : (current w).thread_id ≢ nonexistent_thread
  own_number = let k = (v.runner act.0).numbered in ground arith

  taken-IsSound :
      (m : ℕ) → IsSound (record w { mutexes = set_holder w.mutexes m (current w).thread_id })
  taken-IsSound m =
      mutexes-IsSound w w.current_mutex_num (set_holder w.mutexes m (current w).thread_id)
        (set_holder-IsNumbered w.current_mutex_num w.mutexes m _ v.mutex_nums)
        (λ k h. set_holder-IsAwaited w.current_mutex_num w.mutexes m _ k (λ e. own_number) h) act v

  busy-IsSound :
      (m now : ℕ)
      → IsHeld w.mutexes m
      → IsSound (worker_yield (set_current w (record (current w) { seeking_lock = m })) now)
  busy-IsSound m now h =
      let t : Tcb = record (current w) { seeking_lock = m } in
      let o = waits-OwnWrite w t now refl in
      let s = waits-SameWait w t now refl in
      OwnWrite-IsSound _ o act.0
        (record {
          seeks = λ _.
              let low =
                (IsNumbered-holder w.current_mutex_num w.mutexes m h.0 v.mutex_nums h.1).1 in
              let held : holder_of w.mutexes m ≢ some nonexistent_thread =
                λ z. h.2 (some-injective _ _ (sym h.1 ∙ z)) in
              rw (s.0, o.mutexes, o.mutex_num) (low, held);
        })
        v

  pub worker_mutex_lock-IsSound :
      (m now : ℕ) (o : Outcome) → worker_mutex_lock w m now ≡ some o → IsSound (outcome_world o)
  worker_mutex_lock-IsSound m now o e =
      by_case (worker_mutex_lock w m now) (worker_mutex_lock-Locked w m now) e
    where
      by_case : (r : Option Outcome) → Locked w m now r → r ≡ some o → IsSound (outcome_world o)
      by_case none unknown e = cc
      by_case (some _) (taken h) e =
          subst (λ o. IsSound (outcome_world o)) (some-injective _ _ e) (taken-IsSound m)
      by_case (some _) (busy h) e =
          subst (λ o. IsSound (outcome_world o)) (some-injective _ _ e) (busy-IsSound m now h)

  pub worker_mutex_lock-IsActive :
      (m now : ℕ) (w' : World) → worker_mutex_lock w m now ≡ some (returned w') → IsActive w'
  worker_mutex_lock-IsActive m now w' e =
      by_case (worker_mutex_lock w m now) (worker_mutex_lock-Locked w m now) e
    where
      by_case : (r : Option Outcome) → Locked w m now r → r ≡ some (returned w') → IsActive w'
      by_case none unknown e = cc
      by_case (some _) (taken h) e =
          subst (λ o. IsActive (outcome_world o)) (some-injective _ _ e) act
      by_case (some _) (busy h) e = let e' = some-injective _ _ e in cc
