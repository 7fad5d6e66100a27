-- ===== src/Worker/Steps/Mutexes.antt =====
-- p2/code/thread-worker.c: the list of mutexes, and calls that change only it.
use native.Mathlib.Decide.{ℕ_discrete}
use cs416_os.Prelude.{
  ℕ, ◌-◌, ◌≤◌, ◌<◌, ◌==◌, ◌≡◌, ◌≢◌, refl, sym, ap, ◌∙◌, ◌⊎◌, inl, inr, none, some, List, [], ◌∷◌,
  arith, Option-cases, Bool-cases,
}
use cs416_os.Worker.Tcb.{nonexistent_thread}
use cs416_os.Worker.World.{World, MutexNode}
use cs416_os.Worker.Mutex.{set_holder, remove_mutex, after_mutex}
use cs416_os.Worker.Mutex.Holding.{holder_of, holder-set_holder}
use cs416_os.Worker.Steps.Frame.{All-map, All-zip}
use cs416_os.Worker.Steps.Invariant.{
  IsAwaited, IsNumbered, IsWell, IsSound, IsActive, SameTables, WaitsWell, after-IsSound,
}
use cs416_os.Worker.Steps.Own.{}

pub set_holder-IsNumbered :
    (n : ℕ) (ms : List MutexNode) (m t : ℕ) → IsNumbered n ms → IsNumbered n (set_holder ms m t)
unfolding set_holder
set_holder-IsNumbered n [] m t a = tt
set_holder-IsNumbered n (k ∷ ms) m t a = elim (Bool-cases (k.lock_num == m)) [
  | inl e ↦ rw e a
  | inr e ↦ rw e (a.0, a.1, set_holder-IsNumbered (k.lock_num - 1) ms m t a.2)
]

IsNumbered-weaken : (n n' : ℕ) (ms : List MutexNode) → n ≤ n' → IsNumbered n ms → IsNumbered n' ms
IsNumbered-weaken n n' [] h a = tt
IsNumbered-weaken n n' (k ∷ ms) h a = (a.0, omega (arith, a.1), a.2)

pub remove_mutex-IsNumbered :
    (n : ℕ) (ms : List MutexNode) (m : ℕ) → IsNumbered n ms → IsNumbered n (remove_mutex ms m)
unfolding remove_mutex
remove_mutex-IsNumbered n [] m a = tt
remove_mutex-IsNumbered n (k ∷ ms) m a = elim (Bool-cases (k.lock_num == m)) [
  | inl e ↦ rw e (IsNumbered-weaken (k.lock_num - 1) n ms (omega (arith, a.1)) a.2)
  | inr e ↦ rw e (a.0, a.1, remove_mutex-IsNumbered (k.lock_num - 1) ms m a.2)
]

pub holder-remove_mutex :
    (ms : List MutexNode) (m k : ℕ) → m ≢ k → holder_of (remove_mutex ms m) k ≡ holder_of ms k
unfolding remove_mutex holder_of
holder-remove_mutex [] m k ne = refl
holder-remove_mutex (n ∷ ms) m k ne = ground (arith, holder-remove_mutex ms m k ne)

pub IsNumbered-holder :
    (n : ℕ) (ms : List MutexNode) (m t : ℕ)
    → IsNumbered n ms
    → holder_of ms m ≡ some t
    → (0 < m) × (m ≤ n)
unfolding holder_of
IsNumbered-holder n [] m t a e = absurd (cc)
IsNumbered-holder n (k ∷ ms) m t a e = elim (Bool-cases (k.lock_num == m)) [
  | inl hit ↦ (ground (arith, a.0), ground (arith, a.1))
  | inr miss ↦
      let b = IsNumbered-holder (k.lock_num - 1) ms m t a.2 (ground arith) in
      (b.0, omega (arith, b.1, a.1))
]

-- A number above all those given out is no mutex's.
pub holder-new :
    (n : ℕ) (ms : List MutexNode) (m : ℕ) → IsNumbered n ms → n < m → holder_of ms m ≡ none
holder-new n ms m a h = elim (Option-cases (holder_of ms m)) [
  | inl e ↦ e
  | inr (t, e) ↦ absurd (omega (arith, (IsNumbered-holder n ms m t a e).1))
]

-- A mutex that is removed is not initialized any more.
pub holder-removed :
    (n : ℕ) (ms : List MutexNode) (m : ℕ) → IsNumbered n ms → holder_of (remove_mutex ms m) m ≡ none
unfolding remove_mutex holder_of
holder-removed n [] m a = refl
holder-removed n (k ∷ ms) m a = elim (Bool-cases (k.lock_num == m)) [
  | inl e ↦
      let e' : k.lock_num ≡ m = ground arith in
      rw e (holder-new (k.lock_num - 1) ms m a.2 (omega (arith, a.0)))
  | inr e ↦ rw (e, holder_of, e) (holder-removed (k.lock_num - 1) ms m a.2)
]

-- A mutex that is awaited stays so unless it is the one that is released.
pub set_holder-IsAwaited :
    (n : ℕ) (ms : List MutexNode) (m t k : ℕ)
    → (m ≡ k → t ≢ nonexistent_thread)
    → IsAwaited n ms k
    → IsAwaited n (set_holder ms m t) k
set_holder-IsAwaited n ms m t k ne (l, nf) = elim (ℕ_discrete m k) [
  | yes y ↦ let nz = ne y in (l, λ z. ground (arith, holder-set_holder ms m t k, nf, nz))
  | no o ↦ (l, λ z. nf (sym (ground (arith, holder-set_holder ms m t k)) ∙ z))
]

-- Mutexes are taken out: each has its holder or is not initialized any more.
abbrev pub Loses : List MutexNode → List MutexNode → Type 0
Loses ms ms' = (k : ℕ) → (holder_of ms' k ≡ holder_of ms k) ⊎ (holder_of ms' k ≡ none)

pub remove_mutex-Loses :
    (n : ℕ) (ms : List MutexNode) (m : ℕ) → IsNumbered n ms → Loses ms (remove_mutex ms m)
remove_mutex-Loses n ms m a k = elim (ℕ_discrete m k) [
  | yes y ↦ inr (ap (holder_of (remove_mutex ms m)) (sym y) ∙ holder-removed n ms m a)
  | no o ↦ inl (holder-remove_mutex ms m k o)
]

pub after_mutex-IsNumbered :
    (n : ℕ) (ms : List MutexNode) (m : ℕ) → IsNumbered n ms → IsNumbered n (after_mutex ms m)
unfolding after_mutex
after_mutex-IsNumbered n [] m a = tt
after_mutex-IsNumbered n (k ∷ ms) m a =
    let below : k.lock_num - 1 ≤ n = omega (arith, a.1) in
    elim (Bool-cases (k.lock_num == m)) [
      | inl e ↦ rw e (IsNumbered-weaken (k.lock_num - 1) n ms below a.2)
      | inr e ↦ rw e (
          IsNumbered-weaken (k.lock_num - 1) n (after_mutex ms m) below
            (after_mutex-IsNumbered (k.lock_num - 1) ms m a.2))
    ]

pub after_mutex-Loses :
    (n : ℕ) (ms : List MutexNode) (m : ℕ) → IsNumbered n ms → Loses ms (after_mutex ms m)
unfolding after_mutex holder_of
after_mutex-Loses n [] m a k = inl refl
after_mutex-Loses n (o ∷ ms) m a k = elim (Bool-cases (o.lock_num == k)) [
  | inl here ↦
      let gone = λ (l : List MutexNode) (b : IsNumbered (o.lock_num - 1) l).
        holder-new (o.lock_num - 1) l k b (ground (arith, a.0)) in
      inr (elim (Bool-cases (o.lock_num == m)) [
        | inl e ↦ rw e (gone ms a.2)
        | inr e ↦ rw e (gone (after_mutex ms m) (after_mutex-IsNumbered (o.lock_num - 1) ms m a.2))
      ])
  | inr away ↦ elim (Bool-cases (o.lock_num == m)) [
    | inl e ↦ inl (rw (e, holder_of, away) refl)
    | inr e ↦ (let r = after_mutex-Loses (o.lock_num - 1) ms m a.2 k in rw (e, away) r)
  ]
]

-- A call that changes only the mutexes and frees none that a thread waits for.
pub mutexes-IsSound :
    (w : World) (n : ℕ) (ms : List MutexNode)
    → IsNumbered n ms
    → ((k : ℕ) → IsAwaited w.current_mutex_num w.mutexes k → IsAwaited n ms k)
    → IsActive w
    → IsSound w
    → IsSound (record w { mutexes = ms; current_mutex_num = n })
mutexes-IsSound w n ms nums held act v =
    after-IsSound same act.0 nums (waits w.running (v.runner act.0))
      (All-zip w.q_arrival.items (λ p k u. (waits p k, u)) v.arrivals v.unblocked)
      (All-map w.tcbs.nodes waits v.waiting) v
  where
    same : SameTables w (record w { mutexes = ms; current_mutex_num = n })
    same = record {
      frame = record {
        tid = λ q. refl;
        usage = λ q ne. record { tid = refl; quantums = refl; amount = refl };
        running = refl;
        tcbs = refl;
        q_arrival = refl;
      };
      last = refl;
      ended = refl;
    }

    waits : (p : ℕ) → IsWell w p → WaitsWell (record w { mutexes = ms; current_mutex_num = n }) p
    waits p k = record { seeks = λ ne. held _ (k.seeks ne) }

pub Loses-IsSound :
    (w : World) (ms : List MutexNode)
    → IsNumbered w.current_mutex_num ms
    → Loses w.mutexes ms
    → IsActive w
    → IsSound w
    → IsSound (record w { mutexes = ms })
Loses-IsSound w ms nums loses act v =
    mutexes-IsSound w w.current_mutex_num ms nums
      (λ k h. (h.0, λ z. elim (loses k) [ inl e ↦ h.1 (sym e ∙ z) | inr e ↦ absurd (cc) ])) act v
