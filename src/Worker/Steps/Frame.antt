-- ===== src/Worker/Steps/Frame.antt =====
-- p2/code/thread-worker.c: calls that leave the queues, the threads' numbers and the others' use of
-- the processor alone leave the scheduler's state in order.
use mathlib.Core.List.{
  Mem, Nodup-cons, mem-cons_self, mem-cons_of_mem, mem-append_right, mem-append_left,
}
use mathlib.Core.List.{map-append, Perm}
use mathlib.Core.List.{Permᴰ}
use mathlib.Core.Logic.{∥∥₁_elim}
use native.Mathlib.Nat.{ℕ_set}
use mathlib.Core.Path.{subst}
use cs416_os.Prelude.{
  ℕ, suc, ◌==◌, ◌≡◌, ◌≢◌, refl, ap, ◌∙◌, false, List, [], ◌∷◌, ◌++◌, arith, All, length,
}
use cs416_os.Worker.Tcb.{Store, Tcb}
use cs416_os.Worker.ThreadList.{find_node}
use cs416_os.Worker.ThreadList.Sorted.{Ascends, IsSorted}
use cs416_os.Worker.World.{World}
use cs416_os.Worker.Psjf.Choice.{tids, IsDistinct}
use cs416_os.Worker.Psjf.Round.{candidates, IsReady}

pub All-map {ℓ κ μ} :
    {A : Type ℓ} {P : A → Type κ} {Q : A → Type μ} (ps : List A)
    → ((p : A) → P p → Q p)
    → All P ps
    → All Q ps
All-map [] f a = tt
All-map (p ∷ ps) f a = (f p a.0, All-map ps f a.1)

pub All-zip :
    {P Q R : ℕ → Type 0} (ps : List ℕ)
    → ((p : ℕ) → P p → Q p → R p)
    → All P ps
    → All Q ps
    → All R ps
All-zip [] f a b = tt
All-zip (p ∷ ps) f a b = (f p a.0 b.0, All-zip ps f a.1 b.1)

length-Permᴰ : {ps qs : List ℕ} → Permᴰ ps qs → length ps ≡ length qs
length-Permᴰ Permᴰ.nil = refl
length-Permᴰ (Permᴰ.cons e d) = ap suc (length-Permᴰ d)
length-Permᴰ (Permᴰ.swap e₁ e₂) = refl
length-Permᴰ (Permᴰ.trans d₁ d₂) = length-Permᴰ d₁ ∙ length-Permᴰ d₂

pub length-perm : {ps qs : List ℕ} → Perm ps qs → length ps ≡ length qs
length-perm {ps} {qs} p = ∥∥₁_elim p (ℕ_set (length ps) (length qs)) length-Permᴰ

-- The two tcbs have the same number and have used the processor as much.
pub record SameUsage (t u : Tcb) : Type 0 where
  pub tid : t.thread_id ≡ u.thread_id
  pub quantums : t.quantums_elapsed ≡ u.quantums_elapsed
  pub amount : t.quantum_amt_used ≡ u.quantum_amt_used

-- What a call leaves alone: only the running thread's usage may change.
pub record Frame (w w' : World) : Type 0 where
  pub tid : (q : ℕ) → (w'.store q).thread_id ≡ (w.store q).thread_id
  pub usage : (q : ℕ) → q ≢ w.running → SameUsage (w'.store q) (w.store q)
  pub running : w'.running ≡ w.running
  pub tcbs : w'.tcbs ≡ w.tcbs
  pub q_arrival : w'.q_arrival ≡ w.q_arrival

module _ (h h' : Store) (same : (q : ℕ) → (h' q).thread_id ≡ (h q).thread_id) where
  pub tids-same : (ps : List ℕ) → tids h' ps ≡ tids h ps
  tids-same [] = refl
  tids-same (p ∷ ps) = ground (arith, same p, tids-same ps)

  pub find_node-same : (ps : List ℕ) (t : ℕ) → find_node h' ps t ≡ find_node h ps t
  unfolding find_node
  find_node-same [] t = refl
  find_node-same (p ∷ ps) t = ground (arith, same p, find_node-same ps t)

module _ (h h' : Store) where
  Ascends-usage :
      (p : ℕ) (ns : List ℕ)
      → SameUsage (h' p) (h p)
      → All (λ q. SameUsage (h' q) (h q)) ns
      → Ascends h p ns
      → Ascends h' p ns
  Ascends-usage p [] e a s = tt
  Ascends-usage p (q ∷ ns) e a s = (ground (arith, e, a.0), Ascends-usage q ns a.0 a.1 s.1)

  pub IsSorted-usage :
      (ns : List ℕ) → All (λ q. SameUsage (h' q) (h q)) ns → IsSorted h ns → IsSorted h' ns
  IsSorted-usage [] a s = tt
  IsSorted-usage (p ∷ ns) a s = Ascends-usage p ns a.0 a.1 s

apart : (h : Store) (r : ℕ) (ns : List ℕ) → ¬ Mem (h r).thread_id (tids h ns) → All (λ q. q ≢ r) ns
apart h r [] n = tt
apart h r (q ∷ ns) n = (λ e. n (rw e mem-cons_self), apart h r ns (λ m. n (mem-cons_of_mem _ m)))

pub candidates_running :
    (w : World) → w.running ≢ 0 → candidates w ≡ w.running ∷ (w.q_arrival.items ++ w.tcbs.nodes)
candidates_running w ne = let test : (w.running == 0) ≡ false = ground arith in rw test

candidates-Frame : {w w' : World} → Frame w w' → candidates w' ≡ candidates w
candidates-Frame f = ground (arith, f.running, f.tcbs, f.q_arrival)

-- The running thread is neither newly arrived nor in the run queue.
pub not_running :
    (w : World)
    → IsReady w
    → w.running ≢ 0
    → All (λ q. q ≢ w.running) w.q_arrival.items × All (λ q. q ≢ w.running) w.tcbs.nodes
not_running w v ne =
    let d = subst (IsDistinct w.store) (candidates_running w ne) v.distinct in
    let n = (Nodup-cons.0 d).0 in
    let e = map-append (λ p. (w.store p).thread_id) w.q_arrival.items in
    (
      apart w.store w.running w.q_arrival.items (λ m. n (rw e (mem-append_left _ m))),
      apart w.store w.running w.tcbs.nodes (λ m. n (rw e (mem-append_right _ m))),
    )

pub after-IsReady : (w w' : World) → Frame w w' → w.running ≢ 0 → IsReady w → IsReady w'
after-IsReady w w' f ne v = record {
  arrivals = rw f.q_arrival v.arrivals;
  sized = rw f.tcbs v.sized;
  room = rw (f.tcbs, f.q_arrival) v.room;
  sorted = rw f.tcbs (
      IsSorted-usage w.store w'.store w.tcbs.nodes
        (All-map w.tcbs.nodes f.usage (not_running w v ne).1) v.sorted);
  distinct = rw (candidates-Frame f, tids-same w.store w'.store f.tid (candidates w)) v.distinct;
}
