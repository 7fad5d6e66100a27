-- ===== src/Counter.antt =====
-- p1/threads.c: threads that add to the shared counter `x` under a mutex, as interleaved steps.
-- `pthread_mutex_lock` waits while the mutex is held; `x = x + 1` reads and then writes.
pub mod Total
pub mod Progress
mod Tests
use cs416_os.Prelude.{ℕ, suc, ◌+◌, ◌%◌, ◌^◌, Bool, true, false, List, ◌∷◌, ◌++◌, replicate}

-- Where a thread stands in `add_counter`, and how many rounds are still to be begun: before the lock,
-- before the read, before the write of the value read, before the unlock.
pub data Thread : Type 0 where
  outside : ℕ → Thread
  reading : ℕ → Thread
  writing : ℕ → ℕ → Thread
  leaving : ℕ → Thread

-- `x` is an `int`, here its 32 bits.
pub record Shared : Type 0 where
  pub x : ℕ
  pub held : Bool
  pub threads : List Thread

-- `main` starts four threads.
abbrev pub start : ℕ → Shared
start loop = record { x = 0; held = false; threads = replicate 4 (outside loop) }

-- A step of the thread between `before` and `after`.
pub data Step : Shared → Shared → Type 0 where
  lock :
      (x n : ℕ) (before after : List Thread)
      → Step
          (record { x = x; held = false; threads = before ++ (outside (suc n) ∷ after) })
          (record { x = x; held = true; threads = before ++ (reading n ∷ after) })
  read :
      (x n : ℕ) (held : Bool) (before after : List Thread)
      → Step
          (record { x = x; held = held; threads = before ++ (reading n ∷ after) })
          (record { x = x; held = held; threads = before ++ (writing n x ∷ after) })
  write :
      (x n v : ℕ) (held : Bool) (before after : List Thread)
      → Step
          (record { x = x; held = held; threads = before ++ (writing n v ∷ after) })
          (record { x = (v + 1) % 2 ^ 32; held = held; threads = before ++ (leaving n ∷ after) })
  unlock :
      (x n : ℕ) (held : Bool) (before after : List Thread)
      → Step
          (record { x = x; held = held; threads = before ++ (leaving n ∷ after) })
          (record { x = x; held = false; threads = before ++ (outside n ∷ after) })

-- The states that the interleavings reach.
pub data Reaches (s : Shared) : Shared → Type 0 where
  at_start : Reaches s s
  then_step : {t u : Shared} → Reaches s t → Step t u → Reaches s u
