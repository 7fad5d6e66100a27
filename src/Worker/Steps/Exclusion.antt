-- ===== src/Worker/Steps/Exclusion.antt =====
-- p2/code/thread-worker.c: how the holder of a mutex changes in a step.
use mathlib.Core.Path.{subst}
use mathlib.Core.Option.{some-injective}
use native.Mathlib.Decide.{ℕ_discrete}
use cs416_os.Prelude.{
  List, ℕ, ◌+◌, ◌^◌, ◌<◌, ◌≡◌, refl, sym, ap, ◌∙◌, inl, inr, none, some, Option, arith,
}
use cs416_os.Worker.Tcb.{nonexistent_thread, add_uint}
use cs416_os.Worker.World.{World, MutexNode, Outcome, current, set_current, returned, yields}
use cs416_os.Worker.Threads.{
  worker_join, worker_yield, timer_signal_handler, worker_exit, worker_create,
}
use cs416_os.Worker.Mutex.{
  worker_mutex_init, worker_mutex_lock, worker_mutex_unlock, worker_mutex_destroy, remove_mutex,
}
use cs416_os.Worker.Mutex.Holding.{holder_of, holder-set_holder}
use cs416_os.Worker.Psjf.{sched_psjf}
use cs416_os.Worker.Psjf.Parts.{sched_psjf-Kept}
use cs416_os.Worker.Steps.{
  Step, creates, gives_up, preempted, joins_ended, joins, joins_preempted, sets_retval, exits, ends,
  inits, locks, waits, unlocks, destroys, removes, removes_front,
}
use cs416_os.Worker.Steps.Invariant.{IsSound, IsActive}
use cs416_os.Worker.Steps.Own.{outcome_world, worker_yield-OwnWrite, waits-OwnWrite}
use cs416_os.Worker.Steps.Calls.{Joined, had_ended, had_not, worker_join-Joined}
use cs416_os.Worker.Steps.Mutexes.{holder-new, Loses, remove_mutex-Loses, after_mutex-Loses}
use cs416_os.Worker.Steps.Locking.{Locked, unknown, taken, busy, worker_mutex_lock-Locked}
use cs416_os.Worker.Steps.Releasing.{
  Unlocked, refused, released, worker_mutex_unlock-Unlocked, was_free, was_held,
  worker_mutex_destroy-Destroyed, worker_mutex_unlock-IsSound,
}
use cs416_os.Worker.Steps.Ends.{clean-mutexes}

-- The holder of a mutex before a step of the thread and after it.
pub data HolderStep (tid : ℕ) (before after : Option ℕ) : Type 0 where
  same_holder : after ≡ before → HolderStep tid before after
  acquires : before ≡ some nonexistent_thread → after ≡ some tid → HolderStep tid before after
  releases : before ≡ some tid → after ≡ some nonexistent_thread → HolderStep tid before after
  initializes : before ≡ none → after ≡ some nonexistent_thread → HolderStep tid before after
  uninitializes : after ≡ none → HolderStep tid before after

abbrev pub Moves : World → World → ℕ → Type 0
Moves w w' m = HolderStep (current w).thread_id (holder_of w.mutexes m) (holder_of w'.mutexes m)

unmoved : (w w' : World) (m : ℕ) → w'.mutexes ≡ w.mutexes → Moves w w' m
unmoved w w' m e = same_holder (ap (λ ms. holder_of ms m) e)

round-mutexes : (w w' : World) (n l : ℕ) → sched_psjf w n l ≡ some w' → w'.mutexes ≡ w.mutexes
round-mutexes w w' n l e = (sched_psjf-Kept w w' n l e).mutexes

join-mutexes :
    (w : World) (t p now : ℕ) (o : Outcome)
    → worker_join w t p now ≡ o
    → (outcome_world o).mutexes ≡ w.mutexes
join-mutexes w t p now o e =
    subst (λ o. (outcome_world o).mutexes ≡ w.mutexes) e
      (by_case (worker_join w t p now) (worker_join-Joined w t p now))
  where
    by_case : (r : Outcome) → Joined w t p now r → (outcome_world r).mutexes ≡ w.mutexes
    by_case (returned _) (had_ended results) = refl
    by_case (yields _) (had_not n) = (waits-OwnWrite w _ now refl).mutexes

lock-Moves :
    (w : World) (m now : ℕ) (o : Outcome)
    → worker_mutex_lock w m now ≡ some o
    → (k : ℕ) → Moves w (outcome_world o) k
lock-Moves w m now o e k = by_case (worker_mutex_lock w m now) (worker_mutex_lock-Locked w m now) e
  where
    by_case : (r : Option Outcome) → Locked w m now r → r ≡ some o → Moves w (outcome_world o) k
    by_case none unknown e = cc
    by_case (some _) (taken h) e =
        subst (λ o. Moves w (outcome_world o) k) (some-injective _ _ e)
          (elim (ℕ_discrete m k) [
            | yes y ↦
                acquires (ap (holder_of w.mutexes) (sym y) ∙ h)
                  (ground (arith, holder-set_holder w.mutexes m (current w).thread_id k))
            | no n ↦
                same_holder (ground (arith, holder-set_holder w.mutexes m (current w).thread_id k))
          ])
    by_case (some _) (busy h) e =
        subst (λ o. Moves w (outcome_world o) k) (some-injective _ _ e)
          (unmoved w (worker_yield (set_current w (record (current w) { seeking_lock = m })) now) k
            (waits-OwnWrite w _ now refl).mutexes)

unlock-Moves : (w w' : World) (m : ℕ) → worker_mutex_unlock w m ≡ some w' → (k : ℕ) → Moves w w' k
unlock-Moves w w' m e k = by_case (worker_mutex_unlock w m) (worker_mutex_unlock-Unlocked w m) e
  where
    by_case : (r : Option World) → Unlocked w m r → r ≡ some w' → Moves w w' k
    by_case none refused e = cc
    by_case (some _) (released h) e =
        subst (λ w'. Moves w w' k) (some-injective _ _ e)
          (elim (ℕ_discrete m k) [
            | yes y ↦
                releases (ap (holder_of w.mutexes) (sym y) ∙ h)
                  (ground (arith, holder-set_holder w.mutexes m nonexistent_thread k))
            | no n ↦
                same_holder (ground (arith, holder-set_holder w.mutexes m nonexistent_thread k))
          ])

-- Taking mutexes out after a change.
Loses-Moves :
    (tid : ℕ) (before : Option ℕ) (ms ms' : List MutexNode)
    → Loses ms ms'
    → (k : ℕ) → HolderStep tid before (holder_of ms k)
    → HolderStep tid before (holder_of ms' k)
Loses-Moves tid before ms ms' loses k s = elim (loses k) [
  | inl e ↦ subst (HolderStep tid before) (sym e) s
  | inr e ↦ uninitializes e
]

remove-Moves :
    (w w₁ : World) (m : ℕ)
    → IsSound w₁
    → (k : ℕ) → Moves w w₁ k
    → Moves w (record w₁ { mutexes = remove_mutex w₁.mutexes m }) k
remove-Moves w w₁ m v k =
    Loses-Moves (current w).thread_id (holder_of w.mutexes k) w₁.mutexes _
      (remove_mutex-Loses w₁.current_mutex_num w₁.mutexes m v.mutex_nums) k

destroy-Moves :
    (w w' : World) (m : ℕ)
    → IsActive w
    → IsSound w
    → worker_mutex_destroy w m ≡ some w'
    → (k : ℕ) → Moves w w' k
destroy-Moves w w' m act v e k = elim (worker_mutex_destroy-Destroyed w w' m e) [
  | was_free h r ↦ subst (λ w'. Moves w w' k) r (remove-Moves w w m v k (same_holder refl))
  | was_held w₁ u r ↦
      subst (λ w'. Moves w w' k) r
        (remove-Moves w w₁ m (worker_mutex_unlock-IsSound w act v m w₁ u).0 k
          (unlock-Moves w w₁ m u k))
]

init-Moves :
    (w : World)
    → w.current_mutex_num + 1 < 2 ^ 32
    → IsSound w
    → (k : ℕ) → Moves w (worker_mutex_init w).0 k
unfolding worker_mutex_init holder_of
init-Moves w b v k =
    let e : add_uint w.current_mutex_num 1 ≡ w.current_mutex_num + 1 = omega arith in
    elim (ℕ_discrete (w.current_mutex_num + 1) k) [
      | yes y ↦
          initializes (holder-new w.current_mutex_num w.mutexes k v.mutex_nums (omega arith))
            (ground arith)
      | no n ↦ same_holder (ground arith)
    ]

-- From a sound state, a step changes the holder of a mutex only in these ways.
pub Step-Moves : {w w' : World} → Step w w' → IsSound w → IsActive w → (m : ℕ) → Moves w w' m
unfolding worker_create worker_exit timer_signal_handler
Step-Moves {w} {w'} (creates item now can) v act m = same_holder refl
Step-Moves {w} {w'} (gives_up now n l e) v act m =
    unmoved w w' m (round-mutexes _ w' n l e ∙ (worker_yield-OwnWrite w now).mutexes)
Step-Moves {w} {w'} (preempted n l e) v act m = unmoved w w' m (round-mutexes _ w' n l e)
Step-Moves {w} {w'} (joins_ended t p now e) v act m = unmoved w w' m (join-mutexes w t p now _ e)
Step-Moves {w} {w'} (joins t p now n l r) v act m =
    unmoved w w' m (round-mutexes _ w' n l r ∙ (waits-OwnWrite w _ now refl).mutexes)
Step-Moves {w} {w'} (joins_preempted t p n l r) v act m = unmoved w w' m (round-mutexes _ w' n l r)
Step-Moves {w} {w'} (sets_retval value_ptr) v act m = same_holder refl
Step-Moves {w} {w'} (exits value) v act m = same_holder refl
Step-Moves {w} {w'} (ends now n l {w₁ = w₁} e r) v act m =
    unmoved w w' m (round-mutexes w₁ w' n l r ∙ clean-mutexes w now act v w₁ e)
Step-Moves {w} {w'} (inits b) v act m = init-Moves w b v m
Step-Moves {w} {w'} (locks k now e) v act m = lock-Moves w k now _ e m
Step-Moves {w} {w'} (waits k now n l {w₁ = w₁} e r) v act m =
    let moved = lock-Moves w k now _ e m in
    subst (λ ms. HolderStep (current w).thread_id (holder_of w.mutexes m) (holder_of ms m))
      (sym (round-mutexes w₁ w' n l r)) moved
Step-Moves {w} {w'} (unlocks k e) v act m = unlock-Moves w w' k e m
Step-Moves {w} {w'} (destroys k e) v act m = destroy-Moves w w' k act v e m
Step-Moves {w} {w'} (removes k) v act m = remove-Moves w w k v m (same_holder refl)
Step-Moves {w} {w'} (removes_front k) v act m =
    Loses-Moves (current w).thread_id (holder_of w.mutexes m) w.mutexes _
      (after_mutex-Loses w.current_mutex_num w.mutexes k v.mutex_nums) m (same_holder refl)
