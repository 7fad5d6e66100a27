-- ===== src/Worker/Steps/Releasing.antt =====
-- p2/code/thread-worker.c: releasing and destroying a mutex keep the state sound.
use mathlib.Core.Path.{subst}
use mathlib.Core.Option.{some-injective}
use cs416_os.Prelude.{
  ℕ, zero, suc, ◌==◌, ◌≡◌, ◌≢◌, refl, sym, ap, ◌∙◌, false, inl, inr, none, some, Option, arith,
  Option-cases, Bool-cases, >>=-eq-some,
}
use cs416_os.Worker.Tcb.{is_blocked, nonexistent_thread, nonexistent_mutex}
use cs416_os.Worker.World.{World, current}
use cs416_os.Worker.Mutex.{
  set_holder, worker_mutex_unlock, remove_mutex, after_mutex, worker_mutex_destroy, release_each,
  broadcast_lock_release,
}
use cs416_os.Worker.Mutex.Holding.{
  holder_of, holder-set_holder, is_held_by-some, is_held_by-none, release_each-at,
  release_each-clears,
}
use cs416_os.Worker.Steps.Frame.{All-map, All-zip}
use cs416_os.Worker.Steps.Invariant.{
  IsAwaited, IsWell, IsSound, IsActive, SameTables, WaitsWell, after-IsSound,
}
use cs416_os.Worker.Steps.Own.{free-WaitsWell}
use cs416_os.Worker.Steps.Mutexes.{
  set_holder-IsNumbered, remove_mutex-IsNumbered, IsNumbered-holder, set_holder-IsAwaited,
  Loses-IsSound, remove_mutex-Loses, after_mutex-IsNumbered, after_mutex-Loses,
}

-- What `worker_mutex_unlock` has done.
pub data Unlocked (w : World) (m : ℕ) : Option World → Type 0 where
  refused : Unlocked w m none
  released :
      holder_of w.mutexes m ≡ some (current w).thread_id
      → Unlocked w m (
          some (record w {
            store = release_each w.store w.tcbs.nodes m;
            mutexes = set_holder w.mutexes m nonexistent_thread;
          }))

pub worker_mutex_unlock-Unlocked : (w : World) (m : ℕ) → Unlocked w m (worker_mutex_unlock w m)
unfolding worker_mutex_unlock broadcast_lock_release
worker_mutex_unlock-Unlocked w m = elim (Option-cases (holder_of w.mutexes m)) [
  | inl e ↦ rw (is_held_by-none w (current w).thread_id m e) refused
  | inr (t, e) ↦ elim (Bool-cases (t == (current w).thread_id)) [
    | inl mine ↦
        rw (is_held_by-some w (current w).thread_id m t e, mine)
          (released (e ∙ ap some (ground arith)))
    | inr other ↦ rw (is_held_by-some w (current w).thread_id m t e, other) refused
  ]
]

module _ (w : World) (act : IsActive w) (v : IsSound w) where
  -- The tcbs once a mutex is released.
  abbrev after_release : ℕ → World
  after_release m = record w {
    store = release_each w.store w.tcbs.nodes m;
    mutexes = set_holder w.mutexes m nonexistent_thread;
  }

  release-SameTables : (m : ℕ) → SameTables w (after_release m)
  release-SameTables m = record {
    frame = record {
      tid = λ q. ground (arith, release_each-at w.store w.tcbs.nodes m q);
      usage = λ q ne.
          let at = release_each-at w.store w.tcbs.nodes m q in
          record { tid = ground arith; quantums = ground arith; amount = ground arith };
      running = refl;
      tcbs = refl;
      q_arrival = refl;
    };
    last = refl;
    ended = refl;
  }

  -- A thread that waited for nothing goes on so.
  release-unblocked :
      (m q : ℕ) → is_blocked (w.store q) ≡ false → is_blocked ((after_release m).store q) ≡ false
  unfolding is_blocked
  release-unblocked m q u = ground (arith, release_each-at w.store w.tcbs.nodes m q)

  release-WaitsWell :
      (m q : ℕ)
      → ((after_release m).store q).seeking_lock ≢ m
      → IsWell w q
      → WaitsWell (after_release m) q
  release-WaitsWell m q ne k = record {
    seeks = λ s.
        let e : ((after_release m).store q).seeking_lock ≡ (w.store q).seeking_lock =
          ground (arith, release_each-at w.store w.tcbs.nodes m q) in
        subst (IsAwaited w.current_mutex_num (after_release m).mutexes) (sym e) (
          set_holder-IsAwaited w.current_mutex_num w.mutexes m _ _ (λ h. absurd (ne (e ∙ sym h)))
            (k.seeks (rw e at s)));
  }

  release-IsSound : (m t : ℕ) → holder_of w.mutexes m ≡ some t → IsSound (after_release m)
  release-IsSound m t e =
      let ne : m ≢ nonexistent_mutex =
        let b = IsNumbered-holder w.current_mutex_num w.mutexes m t v.mutex_nums e in
        ground arith in
      let free = λ (q : ℕ) (u : is_blocked (w.store q) ≡ false).
        free-WaitsWell (after_release m) q (release-unblocked m q u) in
      after-IsSound (release-SameTables m) act.0
        (set_holder-IsNumbered w.current_mutex_num w.mutexes m _ v.mutex_nums)
        (free w.running act.1)
        (All-map w.q_arrival.items (λ q u. (free q u, release-unblocked m q u)) v.unblocked)
        (All-zip w.tcbs.nodes (release-WaitsWell m) (release_each-clears w.store w.tcbs.nodes m ne)
          v.waiting)
        v

  release-IsActive : (m : ℕ) → IsActive (after_release m)
  release-IsActive m = (act.0, release-unblocked m w.running act.1)

  pub worker_mutex_unlock-IsSound :
      (m : ℕ) (w' : World)
      → worker_mutex_unlock w m ≡ some w'
      → IsSound w' × IsActive w' × (holder_of w'.mutexes m ≡ some nonexistent_thread)
  worker_mutex_unlock-IsSound m w' e =
      by_case (worker_mutex_unlock w m) (worker_mutex_unlock-Unlocked w m) e
    where
      by_case :
          (r : Option World)
          → Unlocked w m r
          → r ≡ some w'
          → IsSound w' × IsActive w' × (holder_of w'.mutexes m ≡ some nonexistent_thread)
      by_case none refused e = cc
      by_case (some _) (released h) e =
          subst (λ w. IsSound w × IsActive w × (holder_of w.mutexes m ≡ some nonexistent_thread))
            (some-injective _ _ e)
            (
              release-IsSound m _ h,
              release-IsActive m,
              ground (arith, holder-set_holder w.mutexes m nonexistent_thread m, h),
            )

module _ (w : World) (act : IsActive w) (v : IsSound w) where
  pub removed-IsSound : (m : ℕ) → IsSound (record w { mutexes = remove_mutex w.mutexes m })
  removed-IsSound m =
      Loses-IsSound w (remove_mutex w.mutexes m)
        (remove_mutex-IsNumbered w.current_mutex_num w.mutexes m v.mutex_nums)
        (remove_mutex-Loses w.current_mutex_num w.mutexes m v.mutex_nums) act v

  pub after_mutex-IsSound : (m : ℕ) → IsSound (record w { mutexes = after_mutex w.mutexes m })
  after_mutex-IsSound m =
      Loses-IsSound w (after_mutex w.mutexes m)
        (after_mutex-IsNumbered w.current_mutex_num w.mutexes m v.mutex_nums)
        (after_mutex-Loses w.current_mutex_num w.mutexes m v.mutex_nums) act v

-- What `worker_mutex_destroy` has done: it has removed a mutex that was free, or that the running
-- thread held and has released.
pub data Destroyed (w w' : World) (m : ℕ) : Type 0 where
  was_free :
      holder_of w.mutexes m ≡ some nonexistent_thread
      → record w { mutexes = remove_mutex w.mutexes m } ≡ w'
      → Destroyed w w' m
  was_held :
      (w₁ : World)
      → worker_mutex_unlock w m ≡ some w₁
      → record w₁ { mutexes = remove_mutex w₁.mutexes m } ≡ w'
      → Destroyed w w' m

pub worker_mutex_destroy-Destroyed :
    (w w' : World) (m : ℕ) → worker_mutex_destroy w m ≡ some w' → Destroyed w w' m
unfolding worker_mutex_destroy
worker_mutex_destroy-Destroyed w w' m e = elim (Option-cases (holder_of w.mutexes m)) [
  | inl n ↦ absurd (let e' = rw (is_held_by-none w nonexistent_thread m n) at e in cc)
  | inr (zero, h) ↦
      was_free h (some-injective _ _ (rw (is_held_by-some w nonexistent_thread m 0 h) at e))
  | inr (suc t, h) ↦
      let test : (suc t == nonexistent_thread) ≡ false = ground arith in
      let (w₁, u, r) =
        >>=-eq-some (worker_mutex_unlock w m)
          (λ w₁. some (record w₁ { mutexes = remove_mutex w₁.mutexes m }))
          (rw (is_held_by-some w nonexistent_thread m (suc t) h, test) at e) in
      was_held w₁ u (some-injective _ _ r)
]

pub worker_mutex_destroy-IsSound :
    (w : World)
    → IsActive w
    → IsSound w
    → (m : ℕ) (w' : World) → worker_mutex_destroy w m ≡ some w'
    → IsSound w' × IsActive w'
worker_mutex_destroy-IsSound w act v m w' e = elim (worker_mutex_destroy-Destroyed w w' m e) [
  | was_free h r ↦ subst (λ w. IsSound w × IsActive w) r (removed-IsSound w act v m, act)
  | was_held w₁ u r ↦
      let (v₁, act₁, _) = worker_mutex_unlock-IsSound w act v m w₁ u in
      subst (λ w. IsSound w × IsActive w) r (removed-IsSound w₁ act₁ v₁ m, act₁)
]
