-- ===== src/Worker/Mlfq/Queued.antt =====
-- p2/code/thread-worker.c: the state of `sched_mlfq` when all threads stand in the
-- queues of their levels.
use mathlib.Core.Path.{subst}
use native.Mathlib.Decide.{ℕ_discrete}
use cs416_os.Prelude.{
  ℕ, ◌+◌, ◌^◌, ◌≤◌, ◌<◌, ◌==◌, ◌≡◌, ◌≢◌, refl, sym, ap, ◌∙◌, true, false, List, [], ◌∷◌, ◌++◌,
  arith, All, length, length-append, if◌then◌else◌,
}
use cs416_os.Worker.Tcb.{Tcb, is_blocked, queue_levels}
use cs416_os.Worker.World.{World, current}
use cs416_os.Worker.Mlfq.{level_queue, demoted, requeue_running}
use cs416_os.Worker.Mlfq.Boost.{gathered}
use cs416_os.Worker.Mlfq.Entry.{Admits, admit_arrivals_lem}
use cs416_os.Worker.Mlfq.Levels.{HasLevels}
use cs416_os.Worker.Mlfq.Returned.{
  returning, joined_items, joined_size, requeue_running-is_blocked, requeue_running-tcbs, Returned,
  requeue_running-Returned, returning-addresses, length-returning,
}

abbrev pub queued : World → ℕ → List ℕ
queued w k =
    ((level_queue w k).items ++ (if k == 0 then w.q_arrival.items else [])) ++ returning w k

-- All threads that have not ended, level by level.
abbrev pub everyone : World → List ℕ
everyone w = queued w 0 ++ (queued w 1 ++ (queued w 2 ++ (queued w 3 ++ [])))

-- The state in which the scheduler context is entered.
pub record IsReady (w : World) : Type 0 where
  pub levels : length w.all_queue ≡ queue_levels
  pub arrivals : w.q_arrival.size ≡ length w.q_arrival.items
  pub counted : (k : ℕ) → k < queue_levels → (level_queue w k).size ≡ length (level_queue w k).items
  pub room :
      (k : ℕ) → k < queue_levels → (level_queue w k).size + length w.q_arrival.items + 1 < 2 ^ 16
  pub addresses : (k : ℕ) → k < queue_levels → All (λ p. p ≢ 0) (level_queue w k).items
  pub new_addresses : All (λ p. p ≢ 0) w.q_arrival.items
  pub priority : (current w).priority_level < queue_levels
  pub all_counted : w.tcbs.size + length w.q_arrival.items ≡ length (everyone w)
  pub total_room : length (everyone w) < 2 ^ 16

-- The state once all threads stand in the queues.
pub record Entered (queues : ℕ → List ℕ) (w w₂ : World) : Type 0 where
  pub items : (k : ℕ) → k < queue_levels → (level_queue w₂ k).items ≡ queues k
  pub levels : HasLevels queue_levels w₂
  pub idle : w₂.running ≡ 0
  pub same : (p : ℕ) → is_blocked (w₂.store p) ≡ is_blocked (w.store p)

pub All-append : (P : ℕ → Type 0) (ps qs : List ℕ) → All P ps → All P qs → All P (ps ++ qs)
All-append P [] qs a b = b
All-append P (p ∷ ps) qs a b = (a.0, All-append P ps qs a.1 b)

module _ (w : World) (v : IsReady w) where
  abbrev pub entering : World
  entering = record w { tot_cntx_switches = w.tot_cntx_switches + 1 }

  abbrev pub admitted : Admits w.q_arrival.items entering
  admitted =
      admit_arrivals_lem w.q_arrival.items entering refl v.arrivals (omega (arith, v.levels))
        (omega (arith, v.room 0 (omega arith)))

  abbrev pub after : World
  after = requeue_running admitted.result

  same_current : current admitted.result ≡ current w
  same_current =
      ap (λ s. s admitted.result.running) admitted.same_store ∙ ap w.store admitted.same_running

  same_returning : (k : ℕ) → returning admitted.result k ≡ returning w k
  same_returning k =
      ap
        (λ (r : ℕ × Tcb).
          if r.0 == 0 then [] else if k == (demoted r.1).priority_level then r.0 ∷ [] else [])
        (λ i. (admitted.same_running i, same_current i))

  arrived_size : (k : ℕ) → k < queue_levels → (level_queue admitted.result k).size + 1 < 2 ^ 16
  arrived_size k h =
      let n : length (if k == 0 then w.q_arrival.items else []) ≤ length w.q_arrival.items =
        ground arith in
      omega (arith, joined_size admitted.arrived k, v.room k h)

  returned : Returned admitted.result after
  returned =
      requeue_running-Returned admitted.result (admitted.arrived.levels ∙ v.levels) arrived_size
        (rw same_current v.priority)

  entered_items : (k : ℕ) → (level_queue after k).items ≡ queued w k
  entered_items k =
      returned.items k
      ∙ ap (λ l. l ++ returning admitted.result k) (joined_items admitted.arrived k)
      ∙ ap (λ l. ((level_queue w k).items ++ (if k == 0 then w.q_arrival.items else [])) ++ l)
          (same_returning k)

  new_addresses : (k : ℕ) → All (λ p. p ≢ 0) (if k == 0 then w.q_arrival.items else [])
  new_addresses k = elim (ℕ_discrete k 0) [
    | yes e ↦ let test : (k == 0) ≡ true = ground arith in rw test v.new_addresses
    | no n ↦ let test : (k == 0) ≡ false = ground arith in rw test tt
  ]

  pub entered_lem : Entered (queued w) w after
  entered_lem = record {
    items = λ k h. entered_items k;
    levels = record {
      levels = omega (arith, returned.levels, admitted.arrived.levels, v.levels);
      counted = λ k h. omega (
        arith,
        ap length (returned.items k),
        length-append (level_queue admitted.result k).items (returning admitted.result k),
        ap length (joined_items admitted.arrived k),
        length-append (level_queue w k).items (if k == 0 then w.q_arrival.items else []),
        returned.size k,
        joined_size admitted.arrived k,
        v.counted k h,
      );
      small = λ k h.
          omega (arith, returned.size k, length-returning admitted.result k, arrived_size k h);
      addresses = λ k h. subst (All (λ p. p ≢ 0)) (sym (entered_items k)) (
          All-append (λ p. p ≢ 0) _ (returning w k)
            (All-append (λ p. p ≢ 0) (level_queue w k).items _ (v.addresses k h) (new_addresses k))
            (returning-addresses w k));
    };
    idle = returned.idle;
    same = λ p.
        requeue_running-is_blocked admitted.result p
        ∙ ap (λ s. is_blocked (s p)) admitted.same_store;
  }

  pub same_total : after.total_quantums_elapsed ≡ w.total_quantums_elapsed
  same_total = returned.total ∙ admitted.arrived.total

  pub after_tcbs : after.tcbs.size ≡ length (everyone w)
  after_tcbs =
      ap (λ l. l.size) (requeue_running-tcbs admitted.result)
      ∙ admitted.tcbs_size (omega (arith, v.all_counted, v.total_room))
      ∙ v.all_counted

  pub gathered-everyone : gathered queue_levels after 0 ≡ everyone w
  gathered-everyone =
      ap (λ (f : ℕ → List ℕ). f 0 ++ (f 1 ++ (f 2 ++ (f 3 ++ [])))) (λ i k. entered_items k i)
