-- ===== src/Counter/Progress.antt =====
-- p1/threads.c: how many steps the threads take, and whether one can.
use mathlib.Core.Path.{subst}
use cs416_os.Prelude.{
  ℕ, zero, suc, ◌+◌, ◌*◌, ◌≤◌, ◌≡◌, ◌⊎◌, inl, inr, Bool, true, false, refl, sym, ap, List, [], ◌∷◌,
  ◌++◌, arith, All, if◌then◌else◌,
}
use cs416_os.Counter.{
  Thread, outside, reading, writing, leaving, Shared, start, Step, lock, read, write, unlock,
  Reaches, at_start, then_step,
}
use cs416_os.Counter.Total.{
  inside, sum, sum-middle, IsDone, Reaches-IsConsistent, start-IsConsistent,
}

-- The steps that a thread has still to take.
abbrev pub work : Thread → ℕ
work (outside n) = 4 * n
work (reading n) = 4 * n + 3
work (writing n v) = 4 * n + 2
work (leaving n) = 4 * n + 1

Step-work : {s t : Shared} → Step s t → sum work s.threads ≡ sum work t.threads + 1
Step-work (lock x n before after) = omega (
  arith,
  sum-middle work before (outside (suc n)) after,
  sum-middle work before (reading n) after,
)
Step-work (read x n held before after) =
    omega
      (arith, sum-middle work before (reading n) after, sum-middle work before (writing n x) after)
Step-work (write x n v held before after) =
    omega
      (arith, sum-middle work before (writing n v) after, sum-middle work before (leaving n) after)
Step-work (unlock x n held before after) =
    omega
      (arith, sum-middle work before (leaving n) after, sum-middle work before (outside n) after)

-- The number of steps of a run.
unfoldable pub steps : {s t : Shared} → Reaches s t → ℕ
steps at_start = 0
steps (then_step r st) = steps r + 1

start-work : (loop : ℕ) → sum work (start loop).threads ≡ 16 * loop
unfolding sum
start-work loop = omega arith

-- In every run of the four threads, the steps taken and the steps that the threads have still to
-- take are together sixteen times the number of rounds, so that no interleaving runs on for ever.
pub steps_lem :
    (loop : ℕ) (s : Shared) (r : Reaches (start loop) s) → steps r + sum work s.threads ≡ 16 * loop
unfolding steps
steps_lem loop s at_start = omega (arith, start-work loop)
steps_lem loop s (then_step r st) = omega (arith, steps_lem loop _ r, Step-work st)

-- A thread of a list that satisfies `P`.
record Stands (P : Thread → Type 0) (ts : List Thread) : Type 0 where
  pub before : List Thread
  pub thread : Thread
  pub after : List Thread
  pub here : ts ≡ before ++ thread ∷ after
  pub satisfies : P thread

first_Stands : (P : Thread → Type 0) (t : Thread) (ts : List Thread) → P t → Stands P (t ∷ ts)
first_Stands P t ts p = record { before = []; thread = t; after = ts; here = refl; satisfies = p }

later_Stands :
    (P : Thread → Type 0) (t : Thread) (ts : List Thread) → Stands P ts → Stands P (t ∷ ts)
later_Stands P t ts s = record {
  before = t ∷ s.before;
  thread = s.thread;
  after = s.after;
  here = ap (λ l. t ∷ l) s.here;
  satisfies = s.satisfies;
}

abbrev IsInside : Thread → Type 0
IsInside t = inside t ≡ 1

abbrev CanLock : Thread → Type 0
CanLock t = (n : ℕ) × (t ≡ outside (suc n))

somebody_inside : (ts : List Thread) → 1 ≤ sum inside ts → Stands IsInside ts
unfolding sum
somebody_inside [] h = absurd (omega arith)
somebody_inside (outside n ∷ ts) h =
    later_Stands IsInside (outside n) ts (somebody_inside ts (omega arith))
somebody_inside (reading n ∷ ts) h = first_Stands IsInside (reading n) ts refl
somebody_inside (writing n v ∷ ts) h = first_Stands IsInside (writing n v) ts refl
somebody_inside (leaving n ∷ ts) h = first_Stands IsInside (leaving n) ts refl

idle_cases : (ts : List Thread) → sum inside ts ≡ 0 → All IsDone ts ⊎ Stands CanLock ts
unfolding sum
idle_cases [] h = inl tt
idle_cases (outside (suc n) ∷ ts) h = inr (first_Stands CanLock (outside (suc n)) ts (n, refl))
idle_cases (outside zero ∷ ts) h = elim (idle_cases ts (omega arith)) [
  | inl a ↦ inl (refl, a)
  | inr s ↦ inr (later_Stands CanLock (outside 0) ts s)
]
idle_cases (reading n ∷ ts) h = absurd (omega arith)
idle_cases (writing n v ∷ ts) h = absurd (omega arith)
idle_cases (leaving n ∷ ts) h = absurd (omega arith)

-- A thread inside can always go on.
goes_on :
    (x : ℕ) (held : Bool) (before : List Thread) (t : Thread) (after : List Thread)
    → inside t ≡ 1
    → (u : Shared) × Step (record { x = x; held = held; threads = before ++ t ∷ after }) u
goes_on x held before (outside n) after h = absurd (omega arith)
goes_on x held before (reading n) after h = (_, read x n held before after)
goes_on x held before (writing n v) after h = (_, write x n v held before after)
goes_on x held before (leaving n) after h = (_, unlock x n held before after)

locks :
    (x n : ℕ) (before : List Thread) (t : Thread) (after : List Thread)
    → t ≡ outside (suc n)
    → (u : Shared) × Step (record { x = x; held = false; threads = before ++ t ∷ after }) u
locks x n before t after e =
    subst
      (λ y. (u : Shared) × Step (record { x = x; held = false; threads = before ++ y ∷ after }) u)
      (sym e) (_, lock x n before after)

-- A state can take a step.
abbrev pub CanStep : Shared → Type 0
CanStep s = (t : Shared) × Step s t

step_cases :
    (x : ℕ) (held : Bool) (ts : List Thread)
    → sum inside ts ≡ (if held then 1 else 0)
    → All IsDone ts ⊎ CanStep (record { x = x; held = held; threads = ts })
step_cases x true ts h =
    let s = somebody_inside ts (omega (arith, h)) in
    inr (
      subst (λ l. CanStep (record { x = x; held = true; threads = l })) (sym s.here)
        (goes_on x true s.before s.thread s.after s.satisfies))
step_cases x false ts h = elim (idle_cases ts h) [
  | inl a ↦ inl a
  | inr s ↦ inr (
      subst (λ l. CanStep (record { x = x; held = false; threads = l })) (sym s.here)
        (locks x s.satisfies.0 s.before s.thread s.after s.satisfies.1))
]

-- In every state that the start reaches, all threads have made their rounds or some thread can take
-- a step: the threads never wait for each other for ever.
pub Reaches-CanStep :
    (loop : ℕ) (s : Shared) → Reaches (start loop) s → All IsDone s.threads ⊎ CanStep s
Reaches-CanStep loop s r =
    let c = Reaches-IsConsistent (4 * loop) (start-IsConsistent loop) r in
    step_cases s.x s.held s.threads c.exclusive
