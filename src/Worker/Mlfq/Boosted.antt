-- ===== src/Worker/Mlfq/Boosted.antt =====
-- p2/code/thread-worker.c: the levels after `boost_all_queues`.
use mathlib.Core.List.{append_assoc, append-nil}
use mathlib.Core.Path.{subst}
use native.Mathlib.Decide.{ℕ_discrete}
use cs416_os.Prelude.{
  ℕ, zero, suc, ◌+◌, ◌-◌, ◌^◌, ◌≤◌, ◌<◌, ◌==◌, ◌≡◌, ◌≢◌, refl, sym, ap, ◌∙◌, true, false, inl, inr,
  ◌⊎◌, none, some, List, [], ◌∷◌, ◌++◌, arith, All, length, length-append,
}
use cs416_os.Worker.Tcb.{Store, queue_levels, is_blocked}
use cs416_os.Worker.Queue.{empty_queue}
use cs416_os.Worker.World.{World}
use cs416_os.Worker.Mlfq.{level_queue, boost_level, boost_levels, boost_all_queues}
use cs416_os.Worker.Mlfq.Boost.{IsRaised, Boosts, boost_level_lem, gathered, gathered-same}

-- The threads of `n` levels from `level` on have moved to the end of the top level.
pub record Lifted (n level : ℕ) (w w' : World) : Type 0 where
  pub emptied : (j : ℕ) → level ≤ j → j < level + n → level_queue w' j ≡ empty_queue
  pub top_items : (level_queue w' 0).items ≡ (level_queue w 0).items ++ gathered n w level
  pub top_size : (level_queue w' 0).size ≡ (level_queue w 0).size + length (gathered n w level)
  pub between : (j : ℕ) → j ≢ 0 → j < level → level_queue w' j ≡ level_queue w j
  pub tcbs : w'.tcbs ≡ w.tcbs
  pub running : w'.running ≡ w.running
  pub blocks : (p : ℕ) → is_blocked (w'.store p) ≡ is_blocked (w.store p)
  pub levels : length w'.all_queue ≡ length w.all_queue
  pub raised : All (λ p. IsRaised (w'.store p)) (gathered n w level)
  pub kept : (p : ℕ) → (w'.store p ≡ w.store p) ⊎ IsRaised (w'.store p)

All-append : (P : ℕ → Type 0) (ps qs : List ℕ) → All P ps → All P qs → All P (ps ++ qs)
All-append P [] qs a b = b
All-append P (p ∷ ps) qs a b = (a.0, All-append P ps qs a.1 b)

-- A raised tcb stays so.
stays-IsRaised :
    (h h' : Store) (ps : List ℕ)
    → ((p : ℕ) → (h' p ≡ h p) ⊎ IsRaised (h' p))
    → All (λ p. IsRaised (h p)) ps
    → All (λ p. IsRaised (h' p)) ps
stays-IsRaised h h' [] kept a = tt
stays-IsRaised h h' (p ∷ ps) kept a = (
  elim (kept p) [ inl e ↦ subst IsRaised (sym e) a.0 | inr k ↦ k ],
  stays-IsRaised h h' ps kept a.1,
)

Lifted-suc :
    (n level : ℕ) (w w₁ w' : World)
    → level ≢ 0
    → Boosts (level_queue w level).items level w w₁
    → Lifted n (level + 1) w₁ w'
    → Lifted (suc n) level w w'
Lifted-suc n level w w₁ w' ne b r =
    let g : gathered n w₁ (level + 1) ≡ gathered n w (level + 1) =
      gathered-same n w w₁ (level + 1) (λ j h. b.others j (omega arith) (omega arith)) in
    record {
      emptied = λ j lo hi. elim (ℕ_discrete level j) [
        | yes e ↦
            (r.between j (omega arith) (omega arith))
            ∙ subst (λ j. level_queue w₁ j ≡ empty_queue) e b.emptied
        | no m ↦ r.emptied j (omega arith) (omega arith)
      ];
      top_items =
          r.top_items
          ∙ ap (λ l. l ++ gathered n w₁ (level + 1)) b.top_items
          ∙ append_assoc (level_queue w 0).items (level_queue w level).items
              (gathered n w₁ (level + 1))
          ∙ ap (λ l. (level_queue w 0).items ++ ((level_queue w level).items ++ l)) g;
      top_size = omega (
        arith,
        r.top_size,
        b.top_size,
        ap length g,
        length-append (level_queue w level).items (gathered n w (level + 1)),
      );
      between = λ j nz lo. r.between j nz (omega arith) ∙ b.others j nz (omega arith);
      tcbs = r.tcbs ∙ b.tcbs;
      running = r.running ∙ b.running;
      blocks = λ p. r.blocks p ∙ b.blocks p;
      levels = r.levels ∙ b.levels;
      raised =
          All-append (λ p. IsRaised (w'.store p)) (level_queue w level).items _
            (stays-IsRaised w₁.store w'.store (level_queue w level).items r.kept b.raised)
            (subst (All (λ p. IsRaised (w'.store p))) g r.raised);
      kept = λ p. elim (r.kept p) [
        | inr k ↦ inr k
        | inl e ↦ elim (b.kept p) [ inl e' ↦ inl (e ∙ e') | inr k ↦ inr (subst IsRaised (sym e) k) ]
      ];
    }

boost_levels_lem :
    (n : ℕ) (w : World) (level : ℕ)
    → level ≢ 0
    → level + n ≤ length w.all_queue
    → ((j : ℕ)
        → level ≤ j
        → j < level + n
        → (level_queue w j).size ≡ length (level_queue w j).items)
    → (level_queue w 0).size + length (gathered n w level) < 2 ^ 16
    → (w' : World) × (boost_levels n w level ≡ some w') × Lifted n level w w'
unfolding boost_levels
boost_levels_lem zero w level ne here counted b = (
  w,
  refl,
  record {
    emptied = λ j lo hi. absurd (omega arith);
    top_items = sym (append-nil (level_queue w 0).items);
    top_size = omega arith;
    between = λ j nz lo. refl;
    tcbs = refl;
    running = refl;
    blocks = λ p. refl;
    levels = refl;
    raised = tt;
    kept = λ p. inl refl;
  },
)
boost_levels_lem (suc n) w level ne here counted b =
    let size = counted level (omega arith) (omega arith) in
    let split = length-append (level_queue w level).items (gathered n w (level + 1)) in
    let (w₁, run₁, b₁) =
      boost_level_lem (level_queue w level).items w level ne (omega arith) refl size
        (omega (arith, split)) in
    let same = λ (j : ℕ) (h : level + 1 ≤ j). b₁.others j (omega arith) (omega arith) in
    let g = gathered-same n w w₁ (level + 1) same in
    let (w', run', r) =
      boost_levels_lem n w₁ (level + 1) (omega arith) (omega (arith, b₁.levels))
        (λ j lo hi.
          subst (λ q. q.size ≡ length q.items) (sym (same j lo))
            (counted j (omega arith) (omega arith)))
        (omega (arith, split, b₁.top_size, ap length g)) in
    (w', runs w₁ w' size run₁ run', Lifted-suc n level w w₁ w' ne b₁ r)
  where
    runs :
        (w₁ w' : World)
        → (level_queue w level).size ≡ length (level_queue w level).items
        → boost_level (length (level_queue w level).items) w level ≡ some w₁
        → boost_levels n w₁ (level + 1) ≡ some w'
        → boost_levels (suc n) w level ≡ some w'
    runs w₁ w' s a b = rw (boost_levels, s) (rw a b)

-- The level queues once all threads are at the top.
pub record IsBoosted (w w' : World) : Type 0 where
  pub lifted : Lifted 3 1 w w'
  pub size : (level_queue w' 0).size ≡ length (gathered queue_levels w 0)

boost_levels-IsBoosted :
    (w : World)
    → queue_levels ≤ length w.all_queue
    → ((k : ℕ) → k < queue_levels → (level_queue w k).size ≡ length (level_queue w k).items)
    → length (gathered queue_levels w 0) < 2 ^ 16
    → (w' : World) × (boost_levels 3 w 1 ≡ some w') × IsBoosted w w'
boost_levels-IsBoosted w n counted b =
    let top = counted 0 (omega arith) in
    let split = length-append (level_queue w 0).items (gathered 3 w 1) in
    let (w', run, r) =
      boost_levels_lem 3 w 1 (omega arith) (omega (arith, n)) (λ j lo hi. counted j (omega arith))
        (omega (arith, split)) in
    (w', run, record { lifted = r; size = omega (arith, r.top_size, split) })

-- What boosting comes to.
pub boost_all_queues-IsBoosted :
    (w : World)
    → queue_levels ≤ length w.all_queue
    → ((k : ℕ) → k < queue_levels → (level_queue w k).size ≡ length (level_queue w k).items)
    → length (gathered queue_levels w 0) < 2 ^ 16
    → ((length (gathered queue_levels w 0) ≢ w.tcbs.size) × (boost_all_queues w ≡ none))
      ⊎ ((w' : World) × (length (gathered queue_levels w 0) ≡ w.tcbs.size)
          × (boost_all_queues w ≡ some w')
          × IsBoosted w w')
unfolding boost_all_queues
boost_all_queues-IsBoosted w n counted b =
    let (w', run, r) = boost_levels-IsBoosted w n counted b in
    let tcbs = ap (λ l. l.size) r.lifted.tcbs in
    elim (ℕ_discrete (length (gathered queue_levels w 0)) w.tcbs.size) [
      | yes e ↦
          let test : ((level_queue w' 0).size == w'.tcbs.size) ≡ true = ground (arith, r.size) in
          inr (w', e, rw run (rw test refl), r)
      | no ne ↦
          let test : ((level_queue w' 0).size == w'.tcbs.size) ≡ false = ground (arith, r.size) in
          inl (ne, rw run (rw test refl))
    ]

-- When there are four level queues, which count their threads, at most 65535 in all, boosting fails
-- an assertion if the threads of all levels are not as many as the size of tcbs; otherwise it
-- succeeds, the top level holds the threads of all levels, level by level in their order, the other
-- levels are empty, and each thread from a lower level has a full quantum and priority level 0.
pub boost_all_queues_lem :
    (w : World)
    → length w.all_queue ≡ queue_levels
    → ((k : ℕ) → k < queue_levels → (level_queue w k).size ≡ length (level_queue w k).items)
    → length (gathered queue_levels w 0) < 2 ^ 16
    → ((length (gathered queue_levels w 0) ≢ w.tcbs.size) × (boost_all_queues w ≡ none))
      ⊎ ((w' : World) × (length (gathered queue_levels w 0) ≡ w.tcbs.size)
          × (boost_all_queues w ≡ some w')
          × ((level_queue w' 0).items ≡ gathered queue_levels w 0)
          × ((k : ℕ) → 0 < k → k < queue_levels → (level_queue w' k).items ≡ [])
          × All (λ p. IsRaised (w'.store p)) (gathered (queue_levels - 1) w 1))
boost_all_queues_lem w n counted b =
    elim (boost_all_queues-IsBoosted w (omega (arith, n)) counted b) [
      | inl (ne, e) ↦ inl (ne, e)
      | inr (w', same, e, r) ↦ inr (
        w',
        same,
        e,
        r.lifted.top_items,
        λ k lo hi. ap (λ q. q.items) (r.lifted.emptied k (omega arith) (omega arith)),
        r.lifted.raised,
      )
    ]
