-- ===== src/Counter/Total.antt =====
-- p1/threads.c: no addition is lost.
use cs416_os.Prelude.{
  ℕ, suc, ◌+◌, ◌*◌, ◌%◌, ◌^◌, ◌<◌, ◌≡◌, Bool, true, false, refl, List, [], ◌∷◌, ◌++◌, arith, All,
  if◌then◌else◌,
}
use cs416_os.Counter.{
  Thread, outside, reading, writing, leaving, Shared, start, Step, lock, read, write, unlock,
  Reaches, at_start, then_step,
}

-- The additions that a thread has still to make.
abbrev pub owing : Thread → ℕ
owing (outside n) = n
owing (reading n) = n + 1
owing (writing n v) = n + 1
owing (leaving n) = n

abbrev pub inside : Thread → ℕ
inside (outside n) = 0
inside (reading n) = 1
inside (writing n v) = 1
inside (leaving n) = 1

unfoldable pub sum : (Thread → ℕ) → List Thread → ℕ
sum f [] = 0
sum f (t ∷ ts) = f t + sum f ts

pub sum-middle :
    (f : Thread → ℕ) (before : List Thread) (t : Thread) (after : List Thread)
    → sum f (before ++ (t ∷ after)) ≡ sum f before + f t + sum f after
unfolding sum
sum-middle f [] t after = omega arith
sum-middle f (s ∷ before) t after = omega (arith, sum-middle f before t after)

-- A value that was read is still that of the counter.
abbrev pub IsCurrent : ℕ → Thread → Type 0
IsCurrent x (outside n) = Unit
IsCurrent x (reading n) = Unit
IsCurrent x (writing n v) = v ≡ x
IsCurrent x (leaving n) = Unit

All-middle :
    (P : Thread → Type 0) (before : List Thread) (t : Thread) (after : List Thread)
    → All P (before ++ (t ∷ after))
    → All P before × P t × All P after
All-middle P [] t after a = (tt, a.0, a.1)
All-middle P (s ∷ before) t after a =
    let r = All-middle P before t after a.1 in ((a.0, r.0), r.1, r.2)

All-put :
    (P : Thread → Type 0) (before : List Thread) (t : Thread) (after : List Thread)
    → All P before
    → P t
    → All P after
    → All P (before ++ (t ∷ after))
All-put P [] t after b p a = (p, a)
All-put P (s ∷ before) t after b p a = (b.0, All-put P before t after b.1 p a)

nobody-IsCurrent : (x : ℕ) (ts : List Thread) → sum inside ts ≡ 0 → All (IsCurrent x) ts
unfolding sum
nobody-IsCurrent x [] e = tt
nobody-IsCurrent x (outside n ∷ ts) e = (tt, nobody-IsCurrent x ts (omega arith))
nobody-IsCurrent x (reading n ∷ ts) e = absurd (omega arith)
nobody-IsCurrent x (writing n v ∷ ts) e = absurd (omega arith)
nobody-IsCurrent x (leaving n ∷ ts) e = absurd (omega arith)

-- The additions made and those owed are all, as words; at most one thread is inside, exactly when the mutex is
-- held; and values that were read are current.
pub record IsConsistent (total : ℕ) (s : Shared) : Type 0 where
  pub accounted : (s.x + sum owing s.threads) % 2 ^ 32 ≡ total % 2 ^ 32
  pub word : s.x < 2 ^ 32
  pub exclusive : sum inside s.threads ≡ (if s.held then 1 else 0)
  pub current : All (IsCurrent s.x) s.threads

one_inside :
    (held : Bool) (a b : ℕ)
    → a + 1 + b ≡ (if held then 1 else 0)
    → (held ≡ true) × (a ≡ 0) × (b ≡ 0)
one_inside true a b e = (refl, omega arith, omega arith)
one_inside false a b e = absurd (omega arith)

Step-IsConsistent :
    (total : ℕ) {s t : Shared} → Step s t → IsConsistent total s → IsConsistent total t
Step-IsConsistent total (lock x n before after) c =
    let m = All-middle (IsCurrent x) before (outside (suc n)) after c.current in
    record {
      accounted = omega (
        arith,
        c.accounted,
        sum-middle owing before (outside (suc n)) after,
        sum-middle owing before (reading n) after,
      );
      word = c.word;
      exclusive = omega (
        arith,
        c.exclusive,
        sum-middle inside before (outside (suc n)) after,
        sum-middle inside before (reading n) after,
      );
      current = All-put (IsCurrent x) before (reading n) after m.0 tt m.2;
    }
Step-IsConsistent total (read x n held before after) c =
    let m = All-middle (IsCurrent x) before (reading n) after c.current in
    record {
      accounted = omega (
        arith,
        c.accounted,
        sum-middle owing before (reading n) after,
        sum-middle owing before (writing n x) after,
      );
      word = c.word;
      exclusive =
          rw (sum-middle inside before (writing n x) after)
            (rw (sum-middle inside before (reading n) after) at c.exclusive);
      current = All-put (IsCurrent x) before (writing n x) after m.0 refl m.2;
    }
Step-IsConsistent total (write x n v held before after) c =
    let m = All-middle (IsCurrent x) before (writing n v) after c.current in
    let alone =
      one_inside held (sum inside before) (sum inside after)
        (rw (sum-middle inside before (writing n v) after) at c.exclusive) in
    record {
      accounted = omega (
        arith,
        m.1,
        c.accounted,
        sum-middle owing before (writing n v) after,
        sum-middle owing before (leaving n) after,
      );
      word = omega arith;
      exclusive =
          rw (sum-middle inside before (leaving n) after)
            (rw (sum-middle inside before (writing n v) after) at c.exclusive);
      current =
          All-put (IsCurrent ((v + 1) % 2 ^ 32)) before (leaving n) after
            (nobody-IsCurrent ((v + 1) % 2 ^ 32) before alone.1) tt
            (nobody-IsCurrent ((v + 1) % 2 ^ 32) after alone.2);
    }
Step-IsConsistent total (unlock x n held before after) c =
    let m = All-middle (IsCurrent x) before (leaving n) after c.current in
    let alone =
      one_inside held (sum inside before) (sum inside after)
        (rw (sum-middle inside before (leaving n) after) at c.exclusive) in
    record {
      accounted = omega (
        arith,
        c.accounted,
        sum-middle owing before (leaving n) after,
        sum-middle owing before (outside n) after,
      );
      word = c.word;
      exclusive = omega (arith, alone.1, alone.2, sum-middle inside before (outside n) after);
      current = All-put (IsCurrent x) before (outside n) after m.0 tt m.2;
    }

pub Reaches-IsConsistent :
    (total : ℕ) {s t : Shared} → IsConsistent total s → Reaches s t → IsConsistent total t
Reaches-IsConsistent total c at_start = c
Reaches-IsConsistent total c (then_step r s) =
    Step-IsConsistent total s (Reaches-IsConsistent total c r)

pub start-IsConsistent : (loop : ℕ) → IsConsistent (4 * loop) (start loop)
unfolding sum
start-IsConsistent loop = record {
  accounted = omega arith;
  word = omega arith;
  exclusive = refl;
  current = (tt, (tt, (tt, (tt, tt))));
}

-- Every thread has made its rounds.
abbrev pub IsDone : Thread → Type 0
IsDone t = t ≡ outside 0

all_done : (ts : List Thread) → All IsDone ts → sum owing ts ≡ 0
unfolding sum
all_done [] a = refl
all_done (t ∷ ts) a = rw a.0 (omega (arith, all_done ts a.1))

-- With at most 536870911 rounds, so that four times their number is below 2^31, and however the
-- steps of the four threads are interleaved, in a state that the start reaches and in which every
-- thread has made its rounds the counter is four times the number of rounds.
pub Reaches-total :
    (loop : ℕ) (s : Shared)
    → 4 * loop < 2 ^ 31
    → Reaches (start loop) s
    → All IsDone s.threads
    → s.x ≡ 4 * loop
Reaches-total loop s small r done =
    let c = Reaches-IsConsistent (4 * loop) (start-IsConsistent loop) r in
    omega (arith, c.accounted, c.word, all_done s.threads done)
