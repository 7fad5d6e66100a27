-- ===== src/Worker/Mlfq/Entering.antt =====
-- p2/code/thread-worker.c: the part of a round of `sched_mlfq` before the choice of a thread, the
-- boost of the priorities when it is due.
use mathlib.Core.Path.{subst}
use native.Mathlib.Decide.{ℕ_discrete}
use cs416_os.Prelude.{
  ℕ, ◌%◌, ◌^◌, ◌<◌, ◌==◌, All, length, Bool-cases, if◌then◌else◌, ◌≡◌, ◌≢◌, refl, sym, ap, ◌∙◌,
  true, false, not, inl, inr, some, List, [], arith, leb, ◌>>◌, assert,
}
use cs416_os.Worker.Tcb.{queue_levels}
use cs416_os.Worker.World.{World}
use cs416_os.Worker.Psjf.{dispatch}
use cs416_os.Worker.Mlfq.{
  level_queue, search_levels, admit_arrivals, boost_if_due, sched_mlfq, s_value_decay_usage_const,
}
use cs416_os.Worker.Mlfq.Levels.{HasLevels}
use cs416_os.Worker.Mlfq.Boost.{gathered}
use cs416_os.Worker.Mlfq.Boosted.{IsBoosted, boost_all_queues-IsBoosted}
use cs416_os.Worker.Mlfq.Queued.{
  All-append, everyone, same_total, after_tcbs, gathered-everyone, queued, IsReady, Entered,
  entering, admitted, after, entered_lem,
}

-- The queues that a round chooses from: when a boost is due, all threads stand at the top level.
abbrev pub round_queues : World → ℕ → List ℕ
round_queues w k =
    if leb s_value_decay_usage_const w.total_quantums_elapsed
    then if k == 0 then everyone w else []
    else queued w k

HasLevels-boosted :
    (w w' : World)
    → IsBoosted w w'
    → length (gathered queue_levels w 0) < 2 ^ 16
    → HasLevels queue_levels w
    → HasLevels queue_levels w'
HasLevels-boosted w w' b room v = record {
  levels = omega (arith, b.lifted.levels, v.levels);
  counted = λ k h. elim (ℕ_discrete k 0) [
    | yes z ↦
        subst (λ k. (level_queue w' k).size ≡ length (level_queue w' k).items) (sym z)
          (b.size ∙ ap length (sym b.lifted.top_items))
    | no n ↦
        subst (λ q. q.size ≡ length q.items) (sym (b.lifted.emptied k (omega arith) (omega arith)))
          refl
  ];
  small = λ k h. elim (ℕ_discrete k 0) [
    | yes z ↦ subst (λ k. (level_queue w' k).size < 2 ^ 16) (sym z) (omega (arith, b.size, room))
    | no n ↦
        subst (λ q. q.size < 2 ^ 16) (sym (b.lifted.emptied k (omega arith) (omega arith)))
          (omega arith)
  ];
  addresses = λ k h. elim (ℕ_discrete k 0) [
    | yes z ↦
        subst (λ k. All (λ p. p ≢ 0) (level_queue w' k).items) (sym z)
          (subst (All (λ p. p ≢ 0)) (sym b.lifted.top_items) all)
    | no n ↦
        subst (λ q. All (λ p. p ≢ 0) q.items) (sym (b.lifted.emptied k (omega arith) (omega arith)))
          tt
  ];
}
  where
    all : All (λ p. p ≢ 0) (gathered queue_levels w 0)
    all =
        All-append (λ p. p ≢ 0) (level_queue w 0).items _ (v.addresses 0 (omega arith))
          (All-append (λ p. p ≢ 0) (level_queue w 1).items _ (v.addresses 1 (omega arith))
            (All-append (λ p. p ≢ 0) (level_queue w 2).items _ (v.addresses 2 (omega arith))
              (All-append (λ p. p ≢ 0) (level_queue w 3).items [] (v.addresses 3 (omega arith))
                tt)))

module _ (w : World) (v : IsReady w) where
  -- The state in which the boost is made.
  abbrev due : World
  due = record (after w v) {
    total_quantums_elapsed = (after w v).total_quantums_elapsed % s_value_decay_usage_const;
  }

  enters_late :
      leb s_value_decay_usage_const w.total_quantums_elapsed ≡ true
      → (w₂ : World) × (boost_if_due (after w v) ≡ some w₂) × Entered (round_queues w) w w₂
  unfolding boost_if_due
  enters_late late =
      let e = entered_lem w v in
      let g = gathered-everyone w v in
      let lv : HasLevels queue_levels due = record {
        levels = e.levels.levels;
        counted = e.levels.counted;
        small = e.levels.small;
        addresses = e.levels.addresses;
      } in
      let test = ap (leb s_value_decay_usage_const) (same_total w v) ∙ late in
      elim (boost_all_queues-IsBoosted due e.levels.levels e.levels.counted
        (omega (arith, ap length g, v.total_room))) [
          | inl (ne, r) ↦ absurd (ne (ap length g ∙ sym (after_tcbs w v)))
          | inr (w₂, same, r, b) ↦ (
            w₂,
            rw test r,
            record {
              items = λ k h. rw late (elim (ℕ_discrete k 0) [
                | yes z ↦
                    let here : (k == 0) ≡ true = ground arith in
                    rw here (
                      subst (λ k. (level_queue w₂ k).items ≡ everyone w) (sym z)
                        (b.lifted.top_items ∙ g))
                | no n ↦
                    let away : (k == 0) ≡ false = ground arith in
                    rw away (ap (λ q. q.items) (b.lifted.emptied k (omega arith) (omega arith)))
              ]);
              levels = HasLevels-boosted due w₂ b (omega (arith, ap length g, v.total_room)) lv;
              idle = b.lifted.running ∙ e.idle;
              same = λ p. b.lifted.blocks p ∙ e.same p;
            },
          )
        ]

  enters_early :
      leb s_value_decay_usage_const w.total_quantums_elapsed ≡ false
      → (w₂ : World) × (boost_if_due (after w v) ≡ some w₂) × Entered (round_queues w) w w₂
  unfolding boost_if_due
  enters_early early =
      let e = entered_lem w v in
      let test = ap (leb s_value_decay_usage_const) (same_total w v) ∙ early in
      (
        after w v,
        rw test refl,
        record {
          items = λ k h. rw early (e.items k h);
          levels = e.levels;
          idle = e.idle;
          same = e.same;
        },
      )

  pub enters : (w₂ : World) × (boost_if_due (after w v) ≡ some w₂) × Entered (round_queues w) w w₂
  enters = elim (Bool-cases (leb s_value_decay_usage_const w.total_quantums_elapsed)) [
    | inl late ↦ enters_late late
    | inr early ↦ enters_early early
  ]

  pub runs_to :
      (now later : ℕ) (w₂ w₃ : World)
      → boost_if_due (after w v) ≡ some w₂
      → search_levels queue_levels w₂ 0 ≡ some w₃
      → sched_mlfq w now later ≡ (assert (not (w₃.running == 0)) >> some (dispatch w₃ now later))
  unfolding sched_mlfq
  runs_to now later w₂ w₃ b e =
      let start : admit_arrivals w.q_arrival.size (entering w v) ≡ some (admitted w v).result =
        ap (λ n. admit_arrivals n (entering w v)) v.arrivals ∙ (admitted w v).runs in
      rw start (rw b (rw e refl))
