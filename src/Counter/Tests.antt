-- ===== src/Counter/Tests.antt =====
-- p1/threads.c: the theorem at a run of one round each, one thread after the other.
use cs416_os.Prelude.{
  ℕ, suc, ◌+◌, ◌*◌, ◌%◌, ◌^◌, ◌≡◌, arith, ◌⊎◌, All, false, refl, List, [], ◌∷◌, ◌++◌,
}
use cs416_os.Counter.{
  Thread, outside, Shared, start, lock, read, write, unlock, Reaches, at_start, then_step,
}
use cs416_os.Counter.Total.{Reaches-total, IsDone, sum}
use cs416_os.Counter.Progress.{work, steps, steps_lem, CanStep, Reaches-CanStep}

abbrev idle : Thread
idle = outside 0

abbrev finished : Shared
finished = record { x = 4; held = false; threads = idle ∷ idle ∷ idle ∷ idle ∷ [] }

-- A whole round of one thread.
add_once :
    {s : Shared} (x n : ℕ) (before after : List Thread)
    → Reaches s (record { x = x; held = false; threads = before ++ (outside (suc n) ∷ after) })
    → Reaches s
        (record { x = (x + 1) % 2 ^ 32; held = false; threads = before ++ (outside n ∷ after) })
add_once x n before after r =
    then_step
      (then_step (then_step (then_step r (lock x n before after)) (read x n _ before after))
        (write x n x _ before after))
      (unlock ((x + 1) % 2 ^ 32) n _ before after)

one_each : Reaches (start 1) finished
one_each = add_once 3 0 (idle ∷ idle ∷ idle ∷ []) [] (
    add_once 2 0 (idle ∷ idle ∷ []) (outside 1 ∷ []) (
      add_once 1 0 (idle ∷ []) (outside 1 ∷ outside 1 ∷ [])
        (add_once 0 0 [] (outside 1 ∷ outside 1 ∷ outside 1 ∷ []) at_start)))

Reaches-total_example : finished.x ≡ 4
Reaches-total_example =
    Reaches-total 1 finished (omega arith) one_each (refl, (refl, (refl, (refl, tt))))

steps_lem_example : steps one_each + sum work finished.threads ≡ 16 * 1
steps_lem_example = steps_lem 1 finished one_each

Reaches-CanStep_example : All IsDone finished.threads ⊎ CanStep finished
Reaches-CanStep_example = Reaches-CanStep 1 finished one_each
