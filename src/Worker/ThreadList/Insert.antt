-- ===== src/Worker/ThreadList/Insert.antt =====
-- p2/code/thread-worker.c: `insert_by_usage`, `remove_from` and `find_first_unblocked_thread` on a
-- well-formed run queue.
use mathlib.Core.List.{Perm}
use mathlib.Core.Path.{subst}
use cs416_os.Prelude.{
  ℕ, ◌+◌, ◌%◌, ◌^◌, ◌<◌, ◌≡◌, refl, ◌≢◌, true, false, inl, inr, none, some, List, [], ◌∷◌, arith,
  length, All, Bool-cases,
}
use cs416_os.Worker.Tcb.{Store, Tcb, compare_usage, is_blocked}
use cs416_os.Worker.ThreadList.{
  ThreadList, find_node, contains, sorted_by_usage, insert_behind, insert_nodes, insert_by_usage,
  remove_from, first_unblocked,
}
use cs416_os.Worker.ThreadList.Sorted.{
  UsageLe, UsageLe-trans, UsageLe-total, compare_usage-UsageLe, Ascends, IsSorted,
  sorted_from-Ascends, Ascends-insert, insert_behind-perm, find_node-insert_behind,
  remove_node-insert_behind,
}

-- `size` is the number of nodes.
pub record IsSized (l : ThreadList) : Type 0 where
  pub counted : l.size ≡ length l.nodes
  pub small : l.size < 2 ^ 16

module _ (h : Store) where
  insert_nodes-inserted :
      (l : ThreadList) (t : ℕ) (ns : List ℕ)
      → l.nodes ≡ ns
      → l.size ≡ length ns
      → insert_nodes h l t ≡ some (insert_behind h t ns)
  unfolding insert_nodes
  insert_nodes-inserted l t [] e s = ground arith
  insert_nodes-inserted l t (p ∷ ns) e s = ground arith

  IsSorted-insert : (t : ℕ) (ns : List ℕ) → IsSorted h ns → IsSorted h (insert_behind h t ns)
  unfolding insert_behind
  IsSorted-insert t [] s = tt
  IsSorted-insert t (p ∷ ns) s = elim (Bool-cases (compare_usage (h t) (h p))) [
    | inl e ↦ rw e (compare_usage-UsageLe (h t) (h p) e, s)
    | inr e ↦ rw e (Ascends-insert h t p ns (UsageLe-total (h t) (h p) e) s)
  ]

  sorted_by_usage_lem :
      (n : ℕ) (ns : List ℕ)
      → ns ≢ []
      → IsSorted h ns
      → sorted_by_usage h (record { size = n; nodes = ns }) ≡ some true
  unfolding sorted_by_usage
  sorted_by_usage_lem n [] ne s = absurd (ne refl)
  sorted_by_usage_lem n (p ∷ ns) ne s = rw (sorted_from-Ascends h p ns s)

  insert_behind-ne-nil : (t : ℕ) (ns : List ℕ) → insert_behind h t ns ≢ []
  unfolding insert_behind
  insert_behind-ne-nil t [] = λ e. cc
  insert_behind-ne-nil t (p ∷ ns) = ground arith

  length-insert_behind : (t : ℕ) (ns : List ℕ) → length (insert_behind h t ns) ≡ length ns + 1
  unfolding insert_behind
  length-insert_behind t [] = omega arith
  length-insert_behind t (p ∷ ns) = ground (arith, length-insert_behind t ns)

  -- Inserting a thread that is not in a sorted, counted run queue with room left fails no
  -- assertion; the result is sorted, counted and one longer, holds the same threads and the new
  -- one, and removing the new one gives the queue back.
  pub insert_by_usage_lem :
      (l : ThreadList) (t : ℕ)
      → IsSized l
      → l.size + 1 < 2 ^ 16
      → IsSorted h l.nodes
      → find_node h l.nodes (h t).thread_id ≡ none
      → (l' : ThreadList) × (insert_by_usage h l t ≡ some l')
        × (l'.size ≡ l.size + 1)
        × IsSized l'
        × IsSorted h l'.nodes
        × Perm l'.nodes (t ∷ l.nodes)
        × (remove_from h l' (h t).thread_id ≡ some (t, l))
  unfolding insert_by_usage contains remove_from
  insert_by_usage_lem l t v room s fresh = (
    record { size = l.size + 1; nodes = insert_behind h t l.nodes },
    ground (
      arith,
      insert_nodes-inserted l t l.nodes refl v.counted,
      sorted_by_usage_lem ((l.size + 1) % 2 ^ 16) (insert_behind h t l.nodes),
      insert_behind-ne-nil t l.nodes,
      IsSorted-insert t l.nodes s,
      find_node-insert_behind h t l.nodes fresh,
    ),
    refl,
    record { counted = omega (arith, length-insert_behind t l.nodes, v.counted); small = room },
    IsSorted-insert t l.nodes s,
    insert_behind-perm h t l.nodes,
    ground (
      arith,
      find_node-insert_behind h t l.nodes fresh,
      remove_node-insert_behind h t l.nodes fresh,
    ),
  )

  Ascends-tail : (p : ℕ) (ns : List ℕ) → Ascends h p ns → IsSorted h ns
  Ascends-tail p [] s = tt
  Ascends-tail p (q ∷ ns) s = s.1

  Ascends-least :
      (b : Tcb) (p : ℕ) (ns : List ℕ)
      → UsageLe b (h p)
      → Ascends h p ns
      → All (λ q. is_blocked (h q) ≡ false → UsageLe b (h q)) ns
  Ascends-least b p [] u s = tt
  Ascends-least b p (q ∷ ns) u s =
      let v = UsageLe-trans b (h p) (h q) u s.0 in ((λ _. v), Ascends-least b q ns v s.1)

  -- The first unblocked thread of a run queue that is sorted by usage is not blocked, and has used
  -- no more processor time than any other unblocked thread of the queue.
  pub first_unblocked-least :
      (ns : List ℕ) (p : ℕ)
      → IsSorted h ns
      → first_unblocked h ns ≡ some p
      → (is_blocked (h p) ≡ false) × All (λ q. is_blocked (h q) ≡ false → UsageLe (h p) (h q)) ns
  unfolding first_unblocked
  first_unblocked-least [] p s e = cc
  first_unblocked-least (q ∷ ns) p s e = elim (Bool-cases (is_blocked (h q))) [
    | inl b ↦
        let e' : first_unblocked h ns ≡ some p = ground arith in
        let rest = first_unblocked-least ns p (Ascends-tail q ns s) e' in
        (rest.0, ((λ u. cc), rest.1))
    | inr u ↦
        let e' : q ≡ p = ground arith in
        subst
          (λ r.
            (is_blocked (h r) ≡ false)
            × All (λ k. is_blocked (h k) ≡ false → UsageLe (h r) (h k)) (q ∷ ns))
          e'
          (
            u,
            ((λ _. inr (refl, omega arith)), Ascends-least (h q) q ns (inr (refl, omega arith)) s),
          )
  ]
