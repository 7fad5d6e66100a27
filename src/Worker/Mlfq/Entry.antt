-- ===== src/Worker/Mlfq/Entry.antt =====
-- p2/code/thread-worker.c: how `sched_mlfq` puts the new arrivals and the thread that ran into the
-- queues of the levels.
use mathlib.Core.List.{append_assoc, append-nil}
use cs416_os.Prelude.{
  ℕ, ◌+◌, ◌^◌, ◌<◌, ◌==◌, ◌≡◌, ◌≢◌, refl, sym, ap, ◌∙◌, false, some, List, [], ◌∷◌, ◌++◌, arith,
  length, length-set, get_or, set, get_or-set_self, get_or-set_ne,
}
use cs416_os.Worker.ThreadList.{insert_at_front}
use cs416_os.Worker.Queue.{empty_queue, is_empty, enqueue, dequeue}
use cs416_os.Worker.World.{World, current}
use cs416_os.Worker.Mlfq.{level_queue, set_level, admit_arrivals, demoted, requeue_running}

-- The level `k` has got the threads `xs` at its end; the other levels are as they were.
pub record Joins (k : ℕ) (xs : List ℕ) (w w' : World) : Type 0 where
  pub items_eq : (level_queue w' k).items ≡ (level_queue w k).items ++ xs
  pub size_eq : (level_queue w' k).size ≡ (level_queue w k).size + length xs
  pub others : (j : ℕ) → j ≢ k → level_queue w' j ≡ level_queue w j
  pub levels : length w'.all_queue ≡ length w.all_queue
  pub total : w'.total_quantums_elapsed ≡ w.total_quantums_elapsed

enqueue-Joins :
    (k x : ℕ) (w w' : World)
    → k < length w.all_queue
    → (level_queue w k).size + 1 < 2 ^ 16
    → w'.all_queue ≡ set w.all_queue k (enqueue (level_queue w k) x)
    → w'.total_quantums_elapsed ≡ w.total_quantums_elapsed
    → Joins k (x ∷ []) w w'
unfolding enqueue
enqueue-Joins k x w w' b small e t =
    let q = enqueue (level_queue w k) x in
    let at = get_or-set_self w.all_queue k q empty_queue b in
    record {
      items_eq = ap (λ qs. (get_or qs k empty_queue).items) e ∙ ap (λ q. q.items) at;
      size_eq = ap (λ qs. (get_or qs k empty_queue).size) e ∙ ap (λ q. q.size) at ∙ omega arith;
      others = λ j ne.
          ap (λ qs. get_or qs j empty_queue) e
          ∙ get_or-set_ne w.all_queue q empty_queue (λ y. ne (sym y));
      levels = ap length e ∙ length-set w.all_queue k q;
      total = t;
    }

Joins-trans :
    (k x : ℕ) (xs : List ℕ) (w w₁ w₂ : World)
    → Joins k (x ∷ []) w w₁
    → Joins k xs w₁ w₂
    → Joins k (x ∷ xs) w w₂
Joins-trans k x xs w w₁ w₂ a b = record {
  items_eq =
      b.items_eq ∙ ap (λ l. l ++ xs) a.items_eq ∙ append_assoc (level_queue w k).items (x ∷ []) xs;
  size_eq = omega (arith, a.size_eq, b.size_eq);
  others = λ j ne. b.others j ne ∙ a.others j ne;
  levels = b.levels ∙ a.levels;
  total = b.total ∙ a.total;
}

-- What the loop over new arrivals leaves.
pub record Admits (xs : List ℕ) (w : World) : Type 0 where
  pub result : World
  pub runs : admit_arrivals (length xs) w ≡ some result
  pub arrived : Joins 0 xs w result
  pub same_store : result.store ≡ w.store
  pub same_running : result.running ≡ w.running
  pub tcbs_size : w.tcbs.size + length xs < 2 ^ 16 → result.tcbs.size ≡ w.tcbs.size + length xs

arrives : World → ℕ → List ℕ → World
arrives w x xs = record (set_level w 0 (enqueue (level_queue w 0) x)) {
  q_arrival = record { size = length xs; items = xs };
  tcbs = insert_at_front w.store w.tcbs x;
}

arrives-size :
    (w : World) (x : ℕ) (xs : List ℕ)
    → w.tcbs.size + 1 < 2 ^ 16
    → (arrives w x xs).tcbs.size ≡ w.tcbs.size + 1
unfolding arrives insert_at_front
arrives-size w x xs b = omega arith

admit_arrivals-step :
    (w : World) (x : ℕ) (xs : List ℕ)
    → w.q_arrival.items ≡ x ∷ xs
    → w.q_arrival.size ≡ length (x ∷ xs)
    → length (x ∷ xs) < 2 ^ 16
    → admit_arrivals (length (x ∷ xs)) w ≡ admit_arrivals (length xs) (arrives w x xs)
unfolding admit_arrivals is_empty dequeue arrives
admit_arrivals-step w x xs e s b = ground arith

pub admit_arrivals_lem :
    (xs : List ℕ) (w : World)
    → w.q_arrival.items ≡ xs
    → w.q_arrival.size ≡ length xs
    → 0 < length w.all_queue
    → (level_queue w 0).size + length xs < 2 ^ 16
    → Admits xs w
unfolding admit_arrivals arrives
admit_arrivals_lem [] w e s b small = record {
  result = w;
  runs = refl;
  arrived = record {
    items_eq = sym (append-nil (level_queue w 0).items);
    size_eq = omega arith;
    others = λ j ne. refl;
    levels = refl;
    total = refl;
  };
  same_store = refl;
  same_running = refl;
  tcbs_size = λ b. omega arith;
}
admit_arrivals_lem (x ∷ xs) w e s b small =
    let j = enqueue-Joins 0 x w (arrives w x xs) b (omega arith) refl refl in
    let rest =
      admit_arrivals_lem xs (arrives w x xs) refl refl (omega (arith, j.levels))
        (omega (arith, j.size_eq)) in
    record {
      result = rest.result;
      runs = admit_arrivals-step w x xs e s (omega arith) ∙ rest.runs;
      arrived = Joins-trans 0 x xs w (arrives w x xs) rest.result j rest.arrived;
      same_store = rest.same_store;
      same_running = rest.same_running;
      tcbs_size = λ b. one_more rest.tcbs_size b;
    }
  where
    one_more :
        {n : ℕ}
        → ((arrives w x xs).tcbs.size + length xs < 2 ^ 16
            → n ≡ (arrives w x xs).tcbs.size + length xs)
        → w.tcbs.size + length (x ∷ xs) < 2 ^ 16
        → n ≡ w.tcbs.size + length (x ∷ xs)
    one_more f b =
        let e = arrives-size w x xs (omega arith) in omega (arith, f (omega (arith, e)), e)

-- The thread that ran stands at the end of the queue of its level.
pub requeue_running_lem :
    (w : World)
    → w.running ≢ 0
    → (demoted (current w)).priority_level < length w.all_queue
    → (level_queue w (demoted (current w)).priority_level).size + 1 < 2 ^ 16
    → Joins (demoted (current w)).priority_level (w.running ∷ []) w (requeue_running w)
      × ((requeue_running w).running ≡ 0)
unfolding requeue_running
requeue_running_lem w ne b small =
    let test : (w.running == 0) ≡ false = ground arith in
    (
      enqueue-Joins (demoted (current w)).priority_level w.running w (requeue_running w) b small
          (ground arith) (ground arith),
      ground arith,
    )
