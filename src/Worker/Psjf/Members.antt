-- ===== src/Worker/Psjf/Members.antt =====
-- p2/code/thread-worker.c: the parts of a round of `sched_psjf` only move tcbs about, whatever the
-- state they start from.
use cs416_os.Prelude.{
  ℕ, zero, suc, ◌^◌, ◌<◌, ◌≡◌, refl, false, inl, inr, some, List, [], ◌∷◌, arith, length, All,
  Bool-cases, ◌>>=◌, >>=-eq-some,
}
use mathlib.Core.Path.{subst}
use cs416_os.Worker.Tcb.{Store, is_blocked, compare_usage}
use cs416_os.Worker.ThreadList.{
  ThreadList, insert_behind, insert_nodes, insert_by_usage, is_empty_list, first_unblocked,
}
use cs416_os.Worker.Queue.{Queue, is_empty, dequeue}
use cs416_os.Worker.Psjf.{admit}

module _ (h : Store) (P : ℕ → Type 0) where
  insert_behind-All : (t : ℕ) (ns : List ℕ) → P t → All P ns → All P (insert_behind h t ns)
  unfolding insert_behind
  insert_behind-All t [] p a = (p, tt)
  insert_behind-All t (q ∷ ns) p a = elim (Bool-cases (compare_usage (h t) (h q))) [
    | inl e ↦ rw e (p, a)
    | inr e ↦ rw e (a.0, insert_behind-All t ns p a.1)
  ]

  insert_nodes-All :
      (l : ThreadList) (t : ℕ) (old ns : List ℕ)
      → l.nodes ≡ old
      → insert_nodes h l t ≡ some ns
      → P t
      → All P old
      → All P ns
  unfolding insert_nodes insert_behind
  insert_nodes-All l t [] ns eo e p a =
      let e' : t ∷ [] ≡ ns = ground arith in subst (All P) e' (p, tt)
  insert_nodes-All l t (q ∷ qs) ns eo e p a = elim (Bool-cases (is_empty_list l)) [
    | inl empty ↦ let e' : t ∷ [] ≡ ns = ground arith in subst (All P) e' (p, tt)
    | inr full ↦
        let e' : insert_behind h t (q ∷ qs) ≡ ns = ground arith in
        subst (All P) e' (insert_behind-All t (q ∷ qs) p a)
  ]

  insert_by_usage-nodes :
      (l l' : ThreadList) (t : ℕ)
      → insert_by_usage h l t ≡ some l'
      → insert_nodes h l t ≡ some l'.nodes
  unfolding insert_by_usage
  insert_by_usage-nodes l l' t e = ground arith

  pub insert_by_usage-All :
      (l l' : ThreadList) (t : ℕ)
      → insert_by_usage h l t ≡ some l'
      → P t
      → All P l.nodes
      → All P l'.nodes
  insert_by_usage-All l l' t e p a =
      insert_nodes-All l t l.nodes l'.nodes refl (insert_by_usage-nodes l l' t e) p a

  dequeue-All :
      (q q' : Queue) (x : ℕ) (xs : List ℕ)
      → q.items ≡ xs
      → dequeue q ≡ some (x, q')
      → All P xs
      → P x × All P q'.items
  unfolding dequeue
  dequeue-All q q' x [] eq e a = absurd (ground arith)
  dequeue-All q q' x (y ∷ ys) eq e a =
      let ex : y ≡ x = ground arith in
      let er : ys ≡ q'.items = ground arith in (subst P ex a.0, subst (All P) er a.1)

  pub admit-All :
      (n : ℕ) (q q' : Queue) (l l' : ThreadList)
      → admit h n q l ≡ some (q', l')
      → All P q.items
      → All P l.nodes
      → All P q'.items × All P l'.nodes
  unfolding admit
  admit-All zero q q' l l' e aq al =
      let eq : q ≡ q' = ground arith in
      let el : l ≡ l' = ground arith in
      (subst (λ q. All P q.items) eq aq, subst (λ l. All P l.nodes) el al)
  admit-All (suc n) q q' l l' e aq al = elim (Bool-cases (is_empty q)) [
    | inl empty ↦
        let eq : q ≡ q' = ground arith in
        let el : l ≡ l' = ground arith in
        (subst (λ q. All P q.items) eq aq, subst (λ l. All P l.nodes) el al)
    | inr more ↦
        let (r, er, e₁) =
          >>=-eq-some (dequeue q) (λ r. insert_by_usage h l r.0 >>= λ l₁. admit h n r.1 l₁)
            (rw (more, admit) at e) in
        let (l₁, ei, e₂) = >>=-eq-some (insert_by_usage h l r.0) (λ l₁. admit h n r.1 l₁) e₁ in
        let moved = dequeue-All q r.1 r.0 q.items refl er aq in
        admit-All n r.1 q' l₁ l' e₂ moved.1 (insert_by_usage-All l l₁ r.0 ei moved.0 al)
  ]

  pub first_unblocked-All :
      (ns : List ℕ) (p : ℕ)
      → first_unblocked h ns ≡ some p
      → All P ns
      → P p × (is_blocked (h p) ≡ false)
  unfolding first_unblocked
  first_unblocked-All [] p e a = absurd (cc)
  first_unblocked-All (q ∷ ns) p e a = elim (Bool-cases (is_blocked (h q))) [
    | inl b ↦ first_unblocked-All ns p (ground arith) a.1
    | inr u ↦
        let e' : q ≡ p = ground arith in
        (subst P e' a.0, subst (λ p. is_blocked (h p) ≡ false) e' u)
  ]

dequeue_sizes :
    (q q' : Queue) (x : ℕ) (xs : List ℕ) (n : ℕ)
    → q.items ≡ xs
    → dequeue q ≡ some (x, q')
    → q.size ≡ suc n
    → length xs ≡ suc n
    → suc n < 2 ^ 16
    → (q'.size ≡ n) × (length q'.items ≡ n)
unfolding dequeue is_empty
dequeue_sizes q q' x [] n eq e s k b = absurd (omega arith)
dequeue_sizes q q' x (y ∷ ys) n eq e s k b = ground arith

-- The new arrivals are taken in one and all.
pub admit-empties :
    (h : Store) (n : ℕ) (q q' : Queue) (l l' : ThreadList)
    → admit h n q l ≡ some (q', l')
    → q.size ≡ n
    → length q.items ≡ n
    → n < 2 ^ 16
    → (q'.size ≡ 0) × (length q'.items ≡ 0)
unfolding admit is_empty
admit-empties h zero q q' l l' e s k b = ground arith
admit-empties h (suc n) q q' l l' e s k b =
    let more : is_empty q ≡ false = ground arith in
    let (r, er, e₁) =
      >>=-eq-some (dequeue q) (λ r. insert_by_usage h l r.0 >>= λ l₁. admit h n r.1 l₁)
        (rw (more, admit) at e) in
    let (l₁, ei, e₂) = >>=-eq-some (insert_by_usage h l r.0) (λ l₁. admit h n r.1 l₁) e₁ in
    let d = dequeue_sizes q r.1 r.0 q.items n refl er s k b in
    admit-empties h n r.1 q' l₁ l' e₂ d.0 d.1 (omega arith)
