-- ===== src/Worker/Mlfq/Levels.antt =====
-- p2/code/thread-worker.c: the choice of `sched_mlfq` among the levels.
use native.Mathlib.Decide.{ℕ_discrete}
use mathlib.Core.Path.{subst}
use cs416_os.Prelude.{
  ℕ, zero, suc, ◌+◌, ◌-◌, ◌^◌, ◌≤◌, ◌<◌, ◌==◌, ◌≡◌, ◌≢◌, refl, sym, ap, ◌∙◌, true, false, inl, inr,
  some, List, [], ◌∷◌, ◌++◌, arith, All, length, get_or, set, get_or-set_self, get_or-set_ne,
}
use cs416_os.Worker.Tcb.{is_blocked}
use cs416_os.Worker.Queue.{Queue, empty_queue}
use cs416_os.Worker.World.{World}
use cs416_os.Worker.Mlfq.{level_queue, set_level, search_queue, search_levels}
use cs416_os.Worker.Mlfq.Search.{Blocked, search_queue_lem}

-- The queues of the levels count their threads, which have addresses, and there is one for each
-- level below `n`.
pub record HasLevels (n : ℕ) (w : World) : Type 0 where
  pub levels : n ≤ length w.all_queue
  pub counted : (k : ℕ) → k < n → (level_queue w k).size ≡ length (level_queue w k).items
  pub small : (k : ℕ) → k < n → (level_queue w k).size < 2 ^ 16
  pub addresses : (k : ℕ) → k < n → All (λ p. p ≢ 0) (level_queue w k).items

-- The thread chosen is the first unblocked one of level `k`, the levels before `k` have none, and
-- it has left its queue, in which the blocked ones before it have gone to the end.
pub record Choice (level : ℕ) (w w' : World) (k : ℕ) : Type 0 where
  pub above : (j : ℕ) → level ≤ j → j < k → Blocked w.store (level_queue w j).items
  pub before : List ℕ
  pub after : List ℕ
  pub items_eq : (level_queue w k).items ≡ before ++ (w'.running ∷ after)
  pub passed : Blocked w.store before
  pub unblocked : is_blocked (w.store w'.running) ≡ false
  pub left : (level_queue w' k).items ≡ after ++ before
  pub others : (j : ℕ) → j ≢ k → level_queue w' j ≡ level_queue w j
  pub same_store : w'.store ≡ w.store

-- What the search of `n` levels from `level` on comes to.
pub data Searched (n level : ℕ) (w : World) : Type 0 where
  no_thread :
      ((k : ℕ) → level ≤ k → k < level + n → Blocked w.store (level_queue w k).items)
      → search_levels n w level ≡ some w
      → Searched n level w
  chosen :
      (k : ℕ) (w' : World)
      → level ≤ k
      → k < level + n
      → search_levels n w level ≡ some w'
      → w'.running ≢ 0
      → Choice level w w' k
      → Searched n level w

set-get_or : {A : Type 0} (xs : List A) (i : ℕ) (d : A) → set xs i (get_or xs i d) ≡ xs
set-get_or [] i d = refl
set-get_or (x ∷ xs) zero d = refl
set-get_or (x ∷ xs) (suc i) d = ap (λ ys. x ∷ ys) (set-get_or xs i d)

search_levels-done :
    (n : ℕ) (w : World) (level : ℕ) → w.running ≢ 0 → search_levels n w level ≡ some w
unfolding search_levels
search_levels-done zero w level ne = refl
search_levels-done (suc n) w level ne =
    let test : (w.running == 0) ≡ false = ground arith in rw (search_levels, test) refl

search_levels-open :
    (n : ℕ) (w : World) (level p : ℕ) (q : Queue)
    → w.running ≡ 0
    → search_queue w.store (level_queue w level).size (level_queue w level) ≡ some (p, q)
    → search_levels (suc n) w level
      ≡ search_levels n (record (set_level w level q) { running = p }) (level + 1)
unfolding search_levels
search_levels-open n w level p q idle e =
    let test : (w.running == 0) ≡ true = ground arith in rw (search_levels, test) (rw e refl)

All-at : (P : ℕ → Type 0) (before after : List ℕ) (p : ℕ) → All P (before ++ (p ∷ after)) → P p
All-at P [] after p a = a.0
All-at P (x ∷ before) after p a = All-at P before after p a.1

-- What holds of a level and of those below it.
below :
    (P hi : ℕ → Type 0) (level k : ℕ)
    → P level
    → ((j : ℕ) → level + 1 ≤ j → hi j → P j)
    → level ≤ k
    → hi k
    → P k
below P hi level k p f h h' = elim (ℕ_discrete level k) [
  | yes e ↦ subst P e p
  | no n ↦ f k (omega arith) h'
]

module _ (top : ℕ) (w : World) (v : HasLevels top w) (idle : w.running ≡ 0) where
  unchanged : (level : ℕ) → record (set_level w level (level_queue w level)) { running = 0 } ≡ w
  unchanged level =
      let with_queues : List Queue → World = λ qs. record w { all_queue = qs; running = 0 } in
      let with_running : ℕ → World = λ r. record w { running = r } in
      ap with_queues (set-get_or w.all_queue level empty_queue) ∙ ap with_running (sym idle)

  pub search_lem : (n level : ℕ) → level + n ≤ top → Searched n level w
  unfolding search_levels
  search_lem zero level b = no_thread (λ k h h'. absurd (omega arith)) refl
  search_lem (suc n) level b =
      elim (search_queue_lem w.store (level_queue w level).items (level_queue w level).size
        (v.counted level (omega arith)) (v.small level (omega arith))) [
          | inl (blocked, e) ↦
              let opened =
                search_levels-open n w level 0 (level_queue w level) idle e
                ∙ ap (λ w. search_levels n w (level + 1)) (unchanged level) in
              elim (search_lem n (level + 1) (omega arith)) [
                | no_thread lower r ↦
                    no_thread
                      (λ k h h'.
                        below (λ k. Blocked w.store (level_queue w k).items)
                          (λ k. k < level + suc n) level k blocked
                          (λ j a b. lower j a (omega arith)) h h')
                      (opened ∙ r)
                | chosen k w' lo hi r ne c ↦
                    chosen k w' (omega arith) (omega arith) (opened ∙ r) ne (record {
                      above = λ j h h'.
                          below (λ k. Blocked w.store (level_queue w k).items) (λ j. j < k) level j
                            blocked c.above h h';
                      before = c.before;
                      after = c.after;
                      items_eq = c.items_eq;
                      passed = c.passed;
                      unblocked = c.unblocked;
                      left = c.left;
                      others = c.others;
                      same_store = c.same_store;
                    })
              ]
          | inr (before, p, after, items, passed, u, e) ↦
              let q : Queue = record {
                size = (level_queue w level).size - 1;
                items = after ++ before;
              } in
              let w' : World = record (set_level w level q) { running = p } in
              let ne : p ≢ 0 =
                All-at (λ p. p ≢ 0) before after p
                  (subst (All (λ p. p ≢ 0)) items (v.addresses level (omega arith))) in
              chosen level w' (omega arith) (omega arith)
                (search_levels-open n w level p q idle e ∙ search_levels-done n w' (level + 1) ne)
                ne
                (record {
                  above = λ j h h'. absurd (omega arith);
                  before = before;
                  after = after;
                  items_eq = items;
                  passed = passed;
                  unblocked = u;
                  left =
                      ap (λ q. q.items)
                        (get_or-set_self w.all_queue level q empty_queue (omega (arith, v.levels)));
                  others = λ j ne. get_or-set_ne w.all_queue q empty_queue (λ e. ne (sym e));
                  same_store = refl;
                })
        ]
