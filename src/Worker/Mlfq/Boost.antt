-- ===== src/Worker/Mlfq/Boost.antt =====
-- p2/code/thread-worker.c: `boost_all_queues`, which moves all threads to the top level.
use mathlib.Core.Path.{subst}
use mathlib.Core.List.{append_assoc, append-nil}
use native.Mathlib.Decide.{ℕ_discrete}
use cs416_os.Prelude.{
  ℕ, zero, suc, ◌+◌, ◌^◌, ◌≤◌, ◌<◌, ◌≡◌, ◌≢◌, refl, sym, ap, ◌∙◌, false, inl, inr, ◌⊎◌, some, List,
  [], ◌∷◌, ◌++◌, arith, All, length, length-set, get_or, set, get_or-set_self, get_or-set_ne,
}
use cs416_os.Worker.Tcb.{Tcb, update, is_blocked}
use cs416_os.Worker.Queue.{Queue, empty_queue, is_empty, enqueue, dequeue}
use cs416_os.Worker.World.{World}
use cs416_os.Worker.Mlfq.{level_queue, set_level, boost_level}

-- A tcb with a full quantum at the top level.
pub record IsRaised (t : Tcb) : Type 0 where
  pub amount : t.quantum_amt_used ≡ 0
  pub not_used_up : t.time_quantum_used_up_fully ≡ false
  pub priority : t.priority_level ≡ 0

raise : Tcb → Tcb
raise t = record t { quantum_amt_used = 0; time_quantum_used_up_fully = false; priority_level = 0 }

-- The threads `xs` of a level have moved to the end of the top level.
pub record Boosts (xs : List ℕ) (level : ℕ) (w w' : World) : Type 0 where
  pub emptied : level_queue w' level ≡ empty_queue
  pub top_items : (level_queue w' 0).items ≡ (level_queue w 0).items ++ xs
  pub top_size : (level_queue w' 0).size ≡ (level_queue w 0).size + length xs
  pub others : (j : ℕ) → j ≢ 0 → j ≢ level → level_queue w' j ≡ level_queue w j
  pub levels : length w'.all_queue ≡ length w.all_queue
  pub tcbs : w'.tcbs ≡ w.tcbs
  pub running : w'.running ≡ w.running
  pub blocks : (p : ℕ) → is_blocked (w'.store p) ≡ is_blocked (w.store p)
  pub raised : All (λ p. IsRaised (w'.store p)) xs
  pub kept : (p : ℕ) → (w'.store p ≡ w.store p) ⊎ IsRaised (w'.store p)

-- The state once the first of them has moved.
moved : World → ℕ → ℕ → List ℕ → World
moved w level x xs =
    let w₁ : World = set_level w level (record { size = length xs; items = xs }) in
    record (set_level w₁ 0 (enqueue (level_queue w₁ 0) x)) {
      store = update w.store x (raise (w.store x));
    }

boost_level-step :
    (w : World) (level x : ℕ) (xs : List ℕ)
    → (level_queue w level).items ≡ x ∷ xs
    → (level_queue w level).size ≡ length (x ∷ xs)
    → length (x ∷ xs) < 2 ^ 16
    → boost_level (length (x ∷ xs)) w level ≡ boost_level (length xs) (moved w level x xs) level
unfolding boost_level is_empty dequeue moved raise
boost_level-step w level x xs e s b = ground arith

enqueue-back :
    (q : Queue) (x : ℕ)
    → q.size + 1 < 2 ^ 16
    → enqueue q x ≡ record { size = q.size + 1; items = q.items ++ (x ∷ []) }
unfolding enqueue
enqueue-back q x b = ground arith

module _ (w : World) (level x : ℕ) (xs : List ℕ) (ne : level ≢ 0)
    (here : level < length w.all_queue) where
  moved_rest : level_queue (moved w level x xs) level ≡ record { size = length xs; items = xs }
  unfolding moved
  moved_rest =
      let q : Queue = record { size = length xs; items = xs } in
      get_or-set_ne (set w.all_queue level q) _ empty_queue (λ z. ne (sym z))
      ∙ get_or-set_self w.all_queue level q empty_queue here

  moved_top :
      (level_queue w 0).size + 1 < 2 ^ 16
      → level_queue (moved w level x xs) 0
        ≡ record { size = (level_queue w 0).size + 1; items = (level_queue w 0).items ++ (x ∷ []) }
  unfolding moved enqueue
  moved_top b =
      let q : Queue = record { size = length xs; items = xs } in
      let qs = set w.all_queue level q in
      let top : get_or qs 0 empty_queue ≡ level_queue w 0 =
        get_or-set_ne w.all_queue q empty_queue ne in
      get_or-set_self qs 0 (enqueue (get_or qs 0 empty_queue) x) empty_queue
        (omega (arith, length-set w.all_queue level q))
      ∙ ap (λ q. enqueue q x) top
      ∙ enqueue-back (level_queue w 0) x b

  moved_others : (j : ℕ) → j ≢ 0 → j ≢ level → level_queue (moved w level x xs) j ≡ level_queue w j
  unfolding moved
  moved_others j nz nl =
      let q : Queue = record { size = length xs; items = xs } in
      get_or-set_ne (set w.all_queue level q) _ empty_queue (λ z. nz (sym z))
      ∙ get_or-set_ne w.all_queue q empty_queue (λ z. nl (sym z))

  moved_levels : length (moved w level x xs).all_queue ≡ length w.all_queue
  unfolding moved
  moved_levels = length-set (set w.all_queue level _) 0 _ ∙ length-set w.all_queue level _

  moved_tcbs : (moved w level x xs).tcbs ≡ w.tcbs
  unfolding moved
  moved_tcbs = refl

  moved_running : (moved w level x xs).running ≡ w.running
  unfolding moved
  moved_running = refl

  moved_blocks : (p : ℕ) → is_blocked ((moved w level x xs).store p) ≡ is_blocked (w.store p)
  unfolding moved raise is_blocked
  moved_blocks p = ground arith

  moved-IsRaised : IsRaised ((moved w level x xs).store x)
  unfolding moved raise
  moved-IsRaised = record {
    amount = ground arith;
    not_used_up = ground arith;
    priority = ground arith;
  }

  moved_kept :
      (p : ℕ) → ((moved w level x xs).store p ≡ w.store p) ⊎ IsRaised ((moved w level x xs).store p)
  unfolding moved
  moved_kept p = elim (ℕ_discrete x p) [
    | yes e ↦ inr (subst (λ p. IsRaised ((moved w level x xs).store p)) e moved-IsRaised)
    | no n ↦ inl (ground arith)
  ]

Boosts-cons :
    (w w' : World) (level x : ℕ) (xs : List ℕ)
    → level ≢ 0
    → level < length w.all_queue
    → (level_queue w 0).size + 1 < 2 ^ 16
    → Boosts xs level (moved w level x xs) w'
    → Boosts (x ∷ xs) level w w'
Boosts-cons w w' level x xs ne here b r =
    let top = moved_top w level x xs ne here b in
    record {
      emptied = r.emptied;
      top_items =
          r.top_items
          ∙ ap (λ q. q.items ++ xs) top
          ∙ append_assoc (level_queue w 0).items (x ∷ []) xs;
      top_size = r.top_size ∙ ap (λ q. q.size + length xs) top ∙ omega arith;
      others = λ j nz nl. r.others j nz nl ∙ moved_others w level x xs ne here j nz nl;
      levels = r.levels ∙ moved_levels w level x xs ne here;
      tcbs = r.tcbs ∙ moved_tcbs w level x xs ne here;
      running = r.running ∙ moved_running w level x xs ne here;
      blocks = λ p. r.blocks p ∙ moved_blocks w level x xs ne here p;
      raised = (
        elim (r.kept x) [
          | inl e ↦ subst IsRaised (sym e) (moved-IsRaised w level x xs ne here)
          | inr k ↦ k
        ],
        r.raised,
      );
      kept = λ p. elim (r.kept p) [
        | inr k ↦ inr k
        | inl e ↦ elim (moved_kept w level x xs ne here p) [
          | inl e' ↦ inl (e ∙ e')
          | inr k ↦ inr (subst IsRaised (sym e) k)
        ]
      ];
    }

pub boost_level_lem :
    (xs : List ℕ) (w : World) (level : ℕ)
    → level ≢ 0
    → level < length w.all_queue
    → (level_queue w level).items ≡ xs
    → (level_queue w level).size ≡ length xs
    → (level_queue w 0).size + length xs < 2 ^ 16
    → (w' : World) × (boost_level (length xs) w level ≡ some w') × Boosts xs level w w'
unfolding boost_level
boost_level_lem [] w level ne here e s b = (
  w,
  refl,
  record {
    emptied = ground arith;
    top_items = sym (append-nil (level_queue w 0).items);
    top_size = omega arith;
    others = λ j nz nl. refl;
    levels = refl;
    tcbs = refl;
    running = refl;
    blocks = λ p. refl;
    raised = tt;
    kept = λ p. inl refl;
  },
)
boost_level_lem (x ∷ xs) w level ne here e s b =
    let rest = moved_rest w level x xs ne here in
    let top = moved_top w level x xs ne here (omega arith) in
    let (w', run, r) =
      boost_level_lem xs (moved w level x xs) level ne
        (omega (arith, moved_levels w level x xs ne here)) (ap (λ q. q.items) rest)
        (ap (λ q. q.size) rest) (omega (arith, ap (λ q. q.size) top)) in
    (
      w',
      boost_level-step w level x xs e s (omega arith) ∙ run,
      Boosts-cons w w' level x xs ne here (omega arith) r,
    )

-- The threads of `n` levels from `level` on.
abbrev pub gathered : ℕ → World → ℕ → List ℕ
gathered zero w level = []
gathered (suc n) w level = (level_queue w level).items ++ gathered n w (level + 1)

pub gathered-same :
    (n : ℕ) (w w' : World) (level : ℕ)
    → ((j : ℕ) → level ≤ j → level_queue w' j ≡ level_queue w j)
    → gathered n w' level ≡ gathered n w level
gathered-same zero w w' level same = refl
gathered-same (suc n) w w' level same =
    ap (λ q. q.items ++ gathered n w' (level + 1)) (same level (omega arith))
    ∙ ap (λ l. (level_queue w level).items ++ l)
        (gathered-same n w w' (level + 1) (λ j h. same j (omega arith)))
