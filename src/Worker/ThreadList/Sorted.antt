-- ===== src/Worker/ThreadList/Sorted.antt =====
-- p2/code/thread-worker.c: the run queue of the shortest-job-first scheduler, a `List` in ascending
-- order of processor time used.
use mathlib.Core.List.{Perm}
use mathlib.Core.List.Perm
use cs416_os.Prelude.{
  ℕ, ◌<◌, ◌≤◌, ◌≡◌, refl, true, false, inl, inr, none, some, List, [], ◌∷◌, arith, Bool-cases, ◌⊎◌,
}
use cs416_os.Worker.Tcb.{Store, Tcb, compare_usage}
use cs416_os.Worker.ThreadList.{find_node, sorted_from, insert_behind, remove_node}

-- `a` has used no more processor time than `b`: fewer quantums, or as many and no more of one.
abbrev pub UsageLe : Tcb → Tcb → Type 0
UsageLe a b =
    (a.quantums_elapsed < b.quantums_elapsed)
    ⊎ ((a.quantums_elapsed ≡ b.quantums_elapsed) × (a.quantum_amt_used ≤ b.quantum_amt_used))

pub compare_usage-UsageLe : (a b : Tcb) → compare_usage a b ≡ true → UsageLe a b
unfolding compare_usage
compare_usage-UsageLe a b h = ground arith

UsageLe-compare_usage : (a b : Tcb) → UsageLe a b → compare_usage a b ≡ true
unfolding compare_usage
UsageLe-compare_usage a b h = ground arith

pub UsageLe-total : (a b : Tcb) → compare_usage a b ≡ false → UsageLe b a
unfolding compare_usage
UsageLe-total a b h = ground arith

pub UsageLe-trans : (a b c : Tcb) → UsageLe a b → UsageLe b c → UsageLe a c
UsageLe-trans a b c p q = ground arith

module _ (h : Store) where
  -- In ascending order, from a node on.
  abbrev pub Ascends : ℕ → List ℕ → Type 0
  Ascends p [] = Unit
  Ascends p (q ∷ ns) = UsageLe (h p) (h q) × Ascends q ns

  abbrev pub IsSorted : List ℕ → Type 0
  IsSorted [] = Unit
  IsSorted (p ∷ ns) = Ascends p ns

  pub sorted_from-Ascends : (p : ℕ) (ns : List ℕ) → Ascends p ns → sorted_from h p ns ≡ true
  unfolding sorted_from
  sorted_from-Ascends p [] s = refl
  sorted_from-Ascends p (q ∷ ns) s =
      ground (arith, UsageLe-compare_usage (h p) (h q) s.0, sorted_from-Ascends q ns s.1)

  pub Ascends-insert :
      (t p : ℕ) (ns : List ℕ)
      → UsageLe (h p) (h t)
      → Ascends p ns
      → Ascends p (insert_behind h t ns)
  unfolding insert_behind
  Ascends-insert t p [] u s = (u, tt)
  Ascends-insert t p (q ∷ ns) u s = elim (Bool-cases (compare_usage (h t) (h q))) [
    | inl e ↦ rw e (u, (compare_usage-UsageLe (h t) (h q) e, s.1))
    | inr e ↦ rw e (s.0, Ascends-insert t q ns (UsageLe-total (h t) (h q) e) s.1)
  ]

  pub insert_behind-perm : (t : ℕ) (ns : List ℕ) → Perm (insert_behind h t ns) (t ∷ ns)
  unfolding insert_behind
  insert_behind-perm t [] = Perm.refl (t ∷ [])
  insert_behind-perm t (q ∷ ns) = elim (Bool-cases (compare_usage (h t) (h q))) [
    | inl e ↦ rw e (Perm.refl _)
    | inr e ↦ rw e (Perm.trans (Perm.cons q (insert_behind-perm t ns)) (Perm.swap t q ns))
  ]

  pub find_node-insert_behind :
      (t : ℕ) (ns : List ℕ)
      → find_node h ns (h t).thread_id ≡ none
      → find_node h (insert_behind h t ns) (h t).thread_id ≡ some t
  unfolding insert_behind find_node
  find_node-insert_behind t [] e = ground arith
  find_node-insert_behind t (q ∷ ns) e = ground (arith, find_node-insert_behind t ns)

  pub remove_node-insert_behind :
      (t : ℕ) (ns : List ℕ)
      → find_node h ns (h t).thread_id ≡ none
      → remove_node h (insert_behind h t ns) (h t).thread_id ≡ some (t, ns)
  unfolding insert_behind find_node remove_node
  remove_node-insert_behind t [] e = ground arith
  remove_node-insert_behind t (q ∷ ns) e = ground (arith, remove_node-insert_behind t ns)
