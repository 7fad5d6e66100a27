-- ===== src/Worker/Mlfq/Returned.antt =====
-- p2/code/thread-worker.c: `sched_mlfq`, the return of the thread that ran to the queue of its
-- level.
use mathlib.Core.List.{append-nil}
use mathlib.Core.Path.{subst}
use native.Mathlib.Decide.{ℕ_discrete}
use cs416_os.Prelude.{
  ℕ, ◌+◌, ◌^◌, ◌≤◌, ◌<◌, ◌==◌, ◌≡◌, ◌≢◌, refl, sym, ap, ◌∙◌, true, false, List, [], ◌∷◌, ◌++◌,
  arith, All, length, if◌then◌else◌,
}
use cs416_os.Worker.Tcb.{Tcb, is_blocked, queue_levels}
use cs416_os.Worker.World.{World, current}
use cs416_os.Worker.Mlfq.{level_queue, demoted, requeue_running}
use cs416_os.Worker.Mlfq.Entry.{Joins, requeue_running_lem}

-- The threads that join level `k` in a round: the new arrivals at the top, and the thread that ran
-- at its level, once it is demoted.
abbrev pub returning : World → ℕ → List ℕ
returning w k =
    if w.running == 0
    then []
    else if k == (demoted (current w)).priority_level
    then w.running ∷ []
    else []

module _ {w w' : World} {k : ℕ} {xs : List ℕ} (j : Joins k xs w w') where
  pub joined_items :
      (i : ℕ) → (level_queue w' i).items ≡ (level_queue w i).items ++ (if i == k then xs else [])
  joined_items i = elim (ℕ_discrete i k) [
    | yes e ↦
        let test : (i == k) ≡ true = ground arith in
        rw test
          (subst (λ i. (level_queue w' i).items ≡ (level_queue w i).items ++ xs) (sym e) j.items_eq)
    | no n ↦
        let test : (i == k) ≡ false = ground arith in
        rw test (ap (λ q. q.items) (j.others i n) ∙ sym (append-nil (level_queue w i).items))
  ]

  pub joined_size :
      (i : ℕ)
      → (level_queue w' i).size ≡ (level_queue w i).size + length (if i == k then xs else [])
  joined_size i = elim (ℕ_discrete i k) [
    | yes e ↦
        let test : (i == k) ≡ true = ground arith in
        rw test (
          subst (λ i. (level_queue w' i).size ≡ (level_queue w i).size + length xs) (sym e)
            j.size_eq)
    | no n ↦
        let test : (i == k) ≡ false = ground arith in
        rw test (ap (λ q. q.size) (j.others i n) ∙ omega arith)
  ]

demoted-level :
    (t : Tcb) → t.priority_level < queue_levels → (demoted t).priority_level < queue_levels
unfolding demoted
demoted-level t h = ground arith

demoted-is_blocked : (t : Tcb) → is_blocked (demoted t) ≡ is_blocked t
unfolding demoted is_blocked
demoted-is_blocked t = ground arith

pub requeue_running-is_blocked :
    (w : World) (p : ℕ) → is_blocked ((requeue_running w).store p) ≡ is_blocked (w.store p)
unfolding requeue_running
requeue_running-is_blocked w p = ground (arith, demoted-is_blocked (current w))

pub requeue_running-tcbs : (w : World) → (requeue_running w).tcbs ≡ w.tcbs
unfolding requeue_running
requeue_running-tcbs w = ground arith

requeue_running-idle : (w : World) → w.running ≡ 0 → requeue_running w ≡ w
unfolding requeue_running
requeue_running-idle w e = let test : (w.running == 0) ≡ true = ground arith in rw test refl

-- What the return of the running thread makes of the levels.
pub record Returned (w w' : World) : Type 0 where
  pub items : (k : ℕ) → (level_queue w' k).items ≡ (level_queue w k).items ++ returning w k
  pub size : (k : ℕ) → (level_queue w' k).size ≡ (level_queue w k).size + length (returning w k)
  pub levels : length w'.all_queue ≡ length w.all_queue
  pub idle : w'.running ≡ 0
  pub total : w'.total_quantums_elapsed ≡ w.total_quantums_elapsed

pub requeue_running-Returned :
    (w : World)
    → length w.all_queue ≡ queue_levels
    → ((k : ℕ) → k < queue_levels → (level_queue w k).size + 1 < 2 ^ 16)
    → (current w).priority_level < queue_levels
    → Returned w (requeue_running w)
requeue_running-Returned w n room p = elim (ℕ_discrete w.running 0) [
  | yes e ↦
      let test : (w.running == 0) ≡ true = ground arith in
      subst (Returned w) (sym (requeue_running-idle w e)) (record {
        items = λ k. rw test (sym (append-nil (level_queue w k).items));
        size = λ k. rw test (omega arith);
        levels = refl;
        idle = e;
        total = refl;
      })
  | no ne ↦
      let test : (w.running == 0) ≡ false = ground arith in
      let d = demoted-level (current w) p in
      let (j, idle) = requeue_running_lem w ne (omega (arith, n)) (room _ d) in
      record {
        items = λ k. rw test (joined_items j k);
        size = λ k. rw test (joined_size j k);
        levels = j.levels;
        idle = idle;
        total = j.total;
      }
]

pub returning-addresses : (w : World) (k : ℕ) → All (λ p. p ≢ 0) (returning w k)
returning-addresses w k = elim (ℕ_discrete w.running 0) [
  | yes e ↦ let test : (w.running == 0) ≡ true = ground arith in rw test tt
  | no ne ↦
      let test : (w.running == 0) ≡ false = ground arith in
      elim (ℕ_discrete k (demoted (current w)).priority_level) [
        | yes y ↦
            let here : (k == (demoted (current w)).priority_level) ≡ true = ground arith in
            rw (test, here) (ne, tt)
        | no n ↦
            let away : (k == (demoted (current w)).priority_level) ≡ false = ground arith in
            rw (test, away) tt
      ]
]

pub length-returning : (w : World) (k : ℕ) → length (returning w k) ≤ 1
length-returning w k = ground arith
