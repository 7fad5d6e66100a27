-- ===== src/Worker/Psjf/Choice.antt =====
-- p2/code/thread-worker.c: which thread a round of `sched_psjf` chooses.
use mathlib.Core.List.{Perm, Mem, Nodup, Nodup-cons, perm_middle, map-append}
use mathlib.Core.List.{mem-append_right, mem-cons_of_mem, mem-cons_self}
use mathlib.Core.List.Perm
use cs416_os.Prelude.{
  ℕ, ◌+◌, ◌^◌, ◌<◌, ◌==◌, ◌≡◌, refl, inl, inr, none, some, List, [], ◌∷◌, ◌++◌, map, arith, length,
  Bool-cases, ◌∙◌, ==_iff,
}
use cs416_os.Worker.Tcb.{Store}
use cs416_os.Worker.ThreadList.{ThreadList, find_node, insert_by_usage}
use cs416_os.Worker.ThreadList.Sorted.{IsSorted}
use cs416_os.Worker.ThreadList.Insert.{IsSized, insert_by_usage_lem}
use cs416_os.Worker.Queue.{Queue, empty_queue, is_empty, dequeue}
use cs416_os.Worker.Psjf.{admit}

module _ (h : Store) where
  abbrev pub tids : List ℕ → List ℕ
  tids = map (λ p. (h p).thread_id)

  -- No two of the tcbs are of one thread.
  abbrev pub IsDistinct : List ℕ → Type 0
  IsDistinct ps = Nodup (tids ps)

  pub IsDistinct-perm : {ps qs : List ℕ} → Perm ps qs → IsDistinct ps → IsDistinct qs
  IsDistinct-perm p d = Perm.nodup (Perm.map (λ p. (h p).thread_id) p) d

  pub find_node-none : (ps : List ℕ) (t : ℕ) → ¬ Mem t (tids ps) → find_node h ps t ≡ none
  unfolding find_node
  find_node-none [] t n = refl
  find_node-none (p ∷ ps) t n = elim (Bool-cases ((h p).thread_id == t)) [
    | inl e ↦ absurd (n (rw ((==_iff (h p).thread_id t).0 e) mem-cons_self))
    | inr e ↦ rw e (find_node-none ps t (λ m. n (mem-cons_of_mem _ m)))
  ]

  -- What the loop over new arrivals makes of the queue and the run queue.
  pub record Admitted (q : Queue) (l : ThreadList) : Type 0 where
    pub list : ThreadList
    pub runs : admit h q.size q l ≡ some (empty_queue, list)
    pub sized : IsSized list
    pub size_eq : list.size ≡ l.size + length q.items
    pub sorted : IsSorted h list.nodes
    pub perm : Perm list.nodes (q.items ++ l.nodes)

  admit-cons :
      (q : Queue) (l l₁ : ThreadList) (x : ℕ) (xs : List ℕ)
      → q.items ≡ x ∷ xs
      → q.size ≡ length (x ∷ xs)
      → length (x ∷ xs) < 2 ^ 16
      → insert_by_usage h l x ≡ some l₁
      → admit h q.size q l ≡ admit h (length xs) (record { size = length xs; items = xs }) l₁
  unfolding admit is_empty dequeue
  admit-cons q l l₁ x xs e s b i = ground arith

  pub admit_lem :
      (xs : List ℕ) (q : Queue) (l : ThreadList)
      → q.items ≡ xs
      → q.size ≡ length xs
      → IsSized l
      → l.size + length xs < 2 ^ 16
      → IsSorted h l.nodes
      → IsDistinct (xs ++ l.nodes)
      → Admitted q l
  unfolding admit
  admit_lem [] q l e s v room o d = record {
    list = l;
    runs = ground arith;
    sized = v;
    size_eq = rw e (omega arith);
    sorted = o;
    perm = rw e (Perm.refl l.nodes);
  }
  admit_lem (x ∷ xs) q l e s v room o d =
      let fresh = Nodup-cons.0 d in
      let (l₁, run₁, size₁, v₁, o₁, p₁, _) = insert_by_usage_lem h l x v (omega arith) o (
        find_node-none l.nodes _
          (λ m. fresh.0 (rw (map-append (λ p. (h p).thread_id) xs) (mem-append_right _ m)))) in
      let p₂ : Perm (xs ++ l₁.nodes) (x ∷ xs ++ l.nodes) =
        Perm.trans (Perm.append_left xs p₁) (perm_middle xs l.nodes) in
      let rest =
        admit_lem xs (record { size = length xs; items = xs }) l₁ refl refl v₁ (omega arith) o₁
          (IsDistinct-perm (Perm.symm p₂) d) in
      record {
        list = rest.list;
        runs = admit-cons q l l₁ x xs e s (omega arith) run₁ ∙ rest.runs;
        sized = rest.sized;
        size_eq = ground (arith, rest.size_eq);
        sorted = rest.sorted;
        perm = rw e (Perm.trans rest.perm p₂);
      }
