-- ===== src/Worker/ThreadList/Remove.antt =====
-- p2/code/thread-worker.c: taking a thread that was found out of a run queue.
use mathlib.Core.List.{Perm, Mem, Nodup, Nodup-cons, mem-cons, mem-cons_of_mem, mem-cons_self}
use mathlib.Core.List.{mem-map_of_mem, not-mem-nil}
use mathlib.Core.List.Perm
use mathlib.Core.Bool.{Bool-set}
use mathlib.Core.Logic.Or
use mathlib.Core.Path.{subst}
use cs416_os.Prelude.{
  >>=-eq-some, All, ℕ, ◌+◌, ◌==◌, ◌≡◌, true, false, inl, inr, none, some, List, [], ◌∷◌, map, arith,
  length, Bool-cases, ==_iff,
}
use cs416_os.Worker.Tcb.{Store, is_blocked}
use cs416_os.Worker.ThreadList.{find_node, remove_node, first_unblocked}
use cs416_os.Worker.ThreadList.Sorted.{UsageLe, UsageLe-trans, Ascends, IsSorted}

module _ (h : Store) where
  -- The run queue without a thread that it holds.
  pub record Removed (ns : List ℕ) (p : ℕ) : Type 0 where
    pub rest : List ℕ
    pub runs : remove_node h ns (h p).thread_id ≡ some (p, rest)
    pub perm : Perm ns (p ∷ rest)
    pub length_eq : length ns ≡ length rest + 1
    pub keeps_order : IsSorted h ns → IsSorted h rest
    pub keeps_ascent : (b : ℕ) → Ascends h b ns → Ascends h b rest
    pub found : find_node h ns (h p).thread_id ≡ some p

  Ascends-weaken : (b q : ℕ) (ns : List ℕ) → UsageLe (h b) (h q) → Ascends h q ns → Ascends h b ns
  Ascends-weaken b q [] u s = tt
  Ascends-weaken b q (n ∷ ns) u s = (UsageLe-trans (h b) (h q) (h n) u s.0, s.1)

  Ascends-tail : (p : ℕ) (ns : List ℕ) → Ascends h p ns → IsSorted h ns
  Ascends-tail p [] s = tt
  Ascends-tail p (q ∷ ns) s = s.1

  pub first_unblocked-mem : (ns : List ℕ) (p : ℕ) → first_unblocked h ns ≡ some p → Mem p ns
  unfolding first_unblocked
  first_unblocked-mem [] p e = cc
  first_unblocked-mem (q ∷ ns) p e = elim (Bool-cases (is_blocked (h q))) [
    | inl b ↦ mem-cons_of_mem q (first_unblocked-mem ns p (ground arith))
    | inr u ↦ let e' : q ≡ p = ground arith in rw e' mem-cons_self
  ]

  pub first_unblocked-none :
      (ns : List ℕ) (p : ℕ) → first_unblocked h ns ≡ none → Mem p ns → is_blocked (h p) ≡ true
  unfolding first_unblocked
  first_unblocked-none [] p e m = absurd (not-mem-nil m)
  first_unblocked-none (q ∷ ns) p e m = elim (Bool-cases (is_blocked (h q))) [
    | inl b ↦
        Or.elim (Bool-set _ _) (mem-cons.0 m) (λ i. rw i b)
          (first_unblocked-none ns p (ground arith))
    | inr u ↦ absurd (cc)
  ]

  differs :
      (q p : ℕ) (ns : List ℕ)
      → ¬ Mem (h q).thread_id (map (λ q. (h q).thread_id) ns)
      → Mem p ns
      → ((h q).thread_id == (h p).thread_id) ≡ false
  differs q p ns n m = elim (Bool-cases ((h q).thread_id == (h p).thread_id)) [
    | inl e ↦ absurd (n (rw ((==_iff _ _).0 e) (mem-map_of_mem (λ q. (h q).thread_id) m)))
    | inr e ↦ e
  ]

  pub first_unblocked-Removed :
      (ns : List ℕ) (p : ℕ)
      → Nodup (map (λ q. (h q).thread_id) ns)
      → first_unblocked h ns ≡ some p
      → Removed ns p
  unfolding first_unblocked remove_node find_node
  first_unblocked-Removed [] p d e = absurd (cc)
  first_unblocked-Removed (q ∷ ns) p d e = elim (Bool-cases (is_blocked (h q))) [
    | inl b ↦
        let e' : first_unblocked h ns ≡ some p = ground arith in
        let r = first_unblocked-Removed ns p (Nodup-cons.0 d).1 e' in
        let ne : ((h q).thread_id == (h p).thread_id) ≡ false =
          differs q p ns (Nodup-cons.0 d).0 (first_unblocked-mem ns p e') in
        record {
          rest = q ∷ r.rest;
          runs = rw (ne, r.runs);
          perm = Perm.trans (Perm.cons q r.perm) (Perm.swap p q r.rest);
          length_eq = omega (arith, r.length_eq);
          keeps_order = λ s. r.keeps_ascent q s;
          keeps_ascent = λ k s. (s.0, r.keeps_ascent q s.1);
          found = rw (ne, r.found);
        }
    | inr u ↦
        let e' : q ≡ p = ground arith in
        record {
          rest = ns;
          runs = ground arith;
          perm = rw e' (Perm.refl _);
          length_eq = omega arith;
          keeps_order = λ s. Ascends-tail q ns s;
          keeps_ascent = λ k s. Ascends-weaken k q ns s.0 s.1;
          found = ground arith;
        }
  ]

  -- What holds at every node holds at those that are left.
  pub remove_node-All :
      (P : ℕ → Type 0) (t p : ℕ) (ns rest : List ℕ)
      → remove_node h ns t ≡ some (p, rest)
      → All P ns
      → All P rest
  unfolding remove_node
  remove_node-All P t p [] rest e a = absurd (cc)
  remove_node-All P t p (q ∷ ns) rest e a = elim (Bool-cases ((h q).thread_id == t)) [
    | inl hit ↦ let e' : ns ≡ rest = ground arith in subst (All P) e' a.1
    | inr miss ↦
        let (r, e₁, e₂) =
          >>=-eq-some (remove_node h ns t) (λ r. some (r.0, q ∷ r.1)) (rw miss at e) in
        let e' : q ∷ r.1 ≡ rest = ground arith in
        subst (All P) e' (a.0, remove_node-All P t r.0 ns r.1 e₁ a.1)
  ]

  -- So it does at the node that is taken out.
  pub remove_node-taken :
      (P : ℕ → Type 0) (t p : ℕ) (ns rest : List ℕ)
      → remove_node h ns t ≡ some (p, rest)
      → All P ns
      → P p
  unfolding remove_node
  remove_node-taken P t p [] rest e a = absurd (cc)
  remove_node-taken P t p (q ∷ ns) rest e a = elim (Bool-cases ((h q).thread_id == t)) [
    | inl hit ↦ let e' : q ≡ p = ground arith in subst P e' a.0
    | inr miss ↦
        let (r, e₁, e₂) =
          >>=-eq-some (remove_node h ns t) (λ r. some (r.0, q ∷ r.1)) (rw miss at e) in
        let e' : r.0 ≡ p = ground arith in subst P e' (remove_node-taken P t r.0 ns r.1 e₁ a.1)
  ]
