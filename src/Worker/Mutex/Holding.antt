-- ===== src/Worker/Mutex/Holding.antt =====
-- p2/code/thread-worker.c: who holds a mutex after each operation on one, and who waits.
use cs416_os.Prelude.{
  ℕ, zero, suc, ◌==◌, ◌≡◌, ◌≢◌, refl, ap, ◌∙◌, inl, inr, ◌⊎◌, none, some, List, [], ◌∷◌, arith, All,
  Option, Bool-cases, Option-cases, if◌then◌else◌,
}
use cs416_os.Worker.Tcb.{Store, nonexistent_thread, nonexistent_mutex}
use cs416_os.Worker.World.{World, MutexNode, returned, yields, current, set_current}
use cs416_os.Worker.Threads.{worker_yield}
use cs416_os.Worker.Mutex.{
  fetch_from_mutexes, set_holder, is_held_by, worker_mutex_lock, release_one, release_each,
  broadcast_lock_release, worker_mutex_unlock,
}

-- The holder of a mutex, if the mutex is initialized.
unfoldable pub holder_of : List MutexNode → ℕ → Option ℕ
holder_of [] m = none
holder_of (n ∷ ns) m = if n.lock_num == m then some n.holder_tid else holder_of ns m

pub holder-set_holder :
    (ns : List MutexNode) (m t k : ℕ)
    → holder_of (set_holder ns m t) k
      ≡ (if m == k then elim (holder_of ns m) [ none ↦ none | some _ ↦ some t ] else holder_of ns k)
unfolding holder_of set_holder
holder-set_holder [] m t k = ground arith
holder-set_holder (n ∷ ns) m t k = ground (arith, holder-set_holder ns m t k)

holder_of-fetch :
    (ns : List MutexNode) (m : ℕ)
    → holder_of ns m ≡ (elim (fetch_from_mutexes ns m) [ none ↦ none | some n ↦ some n.holder_tid ])
unfolding holder_of fetch_from_mutexes
holder_of-fetch [] m = refl
holder_of-fetch (n ∷ ns) m = ground (arith, holder_of-fetch ns m)

pub is_held_by-some :
    (w : World) (t m s : ℕ) → holder_of w.mutexes m ≡ some s → is_held_by w t m ≡ some (s == t)
unfolding is_held_by
is_held_by-some w t m s e = ground (arith, holder_of-fetch w.mutexes m)

pub is_held_by-none : (w : World) (t m : ℕ) → holder_of w.mutexes m ≡ none → is_held_by w t m ≡ none
unfolding is_held_by
is_held_by-none w t m e = ground (arith, holder_of-fetch w.mutexes m)

pub release_each-at :
    (h : Store) (ns : List ℕ) (m q : ℕ)
    → (release_each h ns m q ≡ h q)
      ⊎ (((h q).seeking_lock ≡ m)
          × (release_each h ns m q ≡ record (h q) { seeking_lock = nonexistent_mutex }))
unfolding release_each
release_each-at h [] m q = inl refl
release_each-at h (p ∷ ns) m q = ground (arith, release_each-at (release_one h p m) ns m q)

pub release_each-clears :
    (h : Store) (ns : List ℕ) (m : ℕ)
    → m ≢ nonexistent_mutex
    → All (λ q. (release_each h ns m q).seeking_lock ≢ m) ns
unfolding release_each
release_each-clears h [] m ne = tt
release_each-clears h (p ∷ ns) m ne = (
  ground (arith, release_each-at (release_one h p m) ns m p),
  release_each-clears (release_one h p m) ns m ne,
)

-- The running thread as it goes to wait for a mutex.
abbrev waiting : World → ℕ → World
waiting w m = set_current w (record (current w) { seeking_lock = m })

abbrev released : World → ℕ → World
released w m = record w {
  store = release_each w.store w.tcbs.nodes m;
  mutexes = set_holder w.mutexes m nonexistent_thread;
}

waiting-seeking : (w : World) (m : ℕ) → (current (waiting w m)).seeking_lock ≡ m
waiting-seeking w m = ground arith

worker_yield-keeps :
    (w : World) (now : ℕ)
    → ((worker_yield w now).mutexes ≡ w.mutexes)
      × ((current (worker_yield w now)).seeking_lock ≡ (current w).seeking_lock)
unfolding worker_yield
worker_yield-keeps w now = (ground arith, ground arith)

-- What the mutex list says after `worker_mutex_lock` has taken or released a mutex.
abbrev pub Holds : List MutexNode → List MutexNode → ℕ → ℕ → Type 0
Holds before after m t =
    (holder_of after m ≡ some t) × ((k : ℕ) → m ≢ k → holder_of after k ≡ holder_of before k)

set_holder-Holds :
    (ns : List MutexNode) (m s t : ℕ) → holder_of ns m ≡ some s → Holds ns (set_holder ns m t) m t
set_holder-Holds ns m s t e =
    (ground (arith, holder-set_holder ns m t m), λ k ne. ground (arith, holder-set_holder ns m t k))

-- The lock call stops on a mutex that is not initialized; takes a free one for the running thread
-- and leaves the other mutexes' holders and the tcbs as they are; and on a held one leaves all
-- mutexes as they are and has the running thread wait for it and yield.
pub worker_mutex_lock_lem :
    (w : World) (m now : ℕ)
    → ((holder_of w.mutexes m ≡ none) × (worker_mutex_lock w m now ≡ none))
      ⊎ ((w' : World) × (holder_of w.mutexes m ≡ some nonexistent_thread)
          × (worker_mutex_lock w m now ≡ some (returned w'))
          × Holds w.mutexes w'.mutexes m (current w).thread_id
          × (w'.store ≡ w.store))
      ⊎ ((t : ℕ) × (w' : World) × (holder_of w.mutexes m ≡ some t)
          × (t ≢ nonexistent_thread)
          × (worker_mutex_lock w m now ≡ some (yields w'))
          × (w'.mutexes ≡ w.mutexes)
          × ((current w').seeking_lock ≡ m))
unfolding worker_mutex_lock
worker_mutex_lock_lem w m now = elim (Option-cases (holder_of w.mutexes m)) [
  | inl e ↦ inl (e, rw (is_held_by-none w nonexistent_thread m e))
  | inr (zero, e) ↦ inr (
      inl (
        record w { mutexes = set_holder w.mutexes m (current w).thread_id },
        e,
        rw (is_held_by-some w nonexistent_thread m zero e),
        set_holder-Holds w.mutexes m 0 (current w).thread_id e,
        refl,
      ))
  | inr (suc t, e) ↦ inr (
      inr (
        suc t,
        worker_yield (waiting w m) now,
        e,
        omega arith,
        waits t e,
        (worker_yield-keeps (waiting w m) now).0,
        (worker_yield-keeps (waiting w m) now).1 ∙ waiting-seeking w m,
      ))
]
  where
    waits :
        (t : ℕ)
        → holder_of w.mutexes m ≡ some (suc t)
        → worker_mutex_lock w m now ≡ some (yields (worker_yield (waiting w m) now))
    waits t e = ground (arith, is_held_by-some w nonexistent_thread m (suc t) e)

-- What `worker_mutex_unlock` leaves of the tcbs: nobody in the run queue waits for the mutex any
-- more, and a tcb that did not wait for it is as it was.
pub record Woken (w w' : World) (m : ℕ) : Type 0 where
  pub cleared : All (λ q. (w'.store q).seeking_lock ≢ m) w.tcbs.nodes
  pub others : (q : ℕ) → (w.store q).seeking_lock ≢ m → w'.store q ≡ w.store q

-- For a mutex number that is not 0, the unlock call succeeds exactly for the mutex's holder; then
-- no thread holds the mutex, the holders of the others are as before, no thread of the run queue
-- waits for it any more, and a thread that did not wait for it is unchanged.
pub worker_mutex_unlock_lem :
    (w : World) (m : ℕ)
    → m ≢ nonexistent_mutex
    → ((holder_of w.mutexes m ≢ some (current w).thread_id) × (worker_mutex_unlock w m ≡ none))
      ⊎ ((w' : World) × (holder_of w.mutexes m ≡ some (current w).thread_id)
          × (worker_mutex_unlock w m ≡ some w')
          × Holds w.mutexes w'.mutexes m nonexistent_thread
          × Woken w w' m)
unfolding worker_mutex_unlock broadcast_lock_release
worker_mutex_unlock_lem w m ne = elim (Option-cases (holder_of w.mutexes m)) [
  | inl e ↦ inl ((λ h. cc), rw (is_held_by-none w (current w).thread_id m e))
  | inr (t, e) ↦ elim (Bool-cases (t == (current w).thread_id)) [
    | inl mine ↦
        let e' : t ≡ (current w).thread_id = ground arith in
        inr (
          released w m,
          e ∙ ap some e',
          ground (arith, is_held_by-some w (current w).thread_id m t e),
          set_holder-Holds w.mutexes m t nonexistent_thread e,
          record {
            cleared = release_each-clears w.store w.tcbs.nodes m ne;
            others = λ q nq. ground (arith, release_each-at w.store w.tcbs.nodes m q);
          },
        )
    | inr other ↦
        inl ((λ h. ground arith), ground (arith, is_held_by-some w (current w).thread_id m t e))
  ]
]
