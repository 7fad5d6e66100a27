-- ===== src/Worker/Steps/Creating.antt =====
-- p2/code/thread-worker.c: creating a thread keeps the state sound.
use mathlib.Core.List.{
  Mem, Perm, Nodup-cons, perm_middle, mem-cons_self, mem-cons_of_mem, mem_of_ne_of_mem, not-mem-nil,
}
use mathlib.Core.List.Perm
use mathlib.Core.Path.{subst}
use cs416_os.Prelude.{
  ℕ, ◌+◌, ◌%◌, ◌^◌, ◌≤◌, ◌≡◌, ◌≢◌, refl, sym, ap, ◌∙◌, false, List, [], ◌∷◌, ◌++◌, arith, All,
  length, length-append,
}
use cs416_os.Worker.Tcb.{Store, update, is_blocked}
use cs416_os.Worker.ThreadList.{find_node}
use cs416_os.Worker.Queue.{enqueue}
use cs416_os.Worker.World.{World}
use cs416_os.Worker.Threads.{new_tcb, worker_create}
use cs416_os.Worker.Psjf.Choice.{tids, IsDistinct, IsDistinct-perm}
use cs416_os.Worker.Psjf.Round.{IsReady, candidates, present}
use cs416_os.Worker.Steps.{CanCreate}
use cs416_os.Worker.Steps.Frame.{All-map, All-zip, IsSorted-usage, candidates_running}
use cs416_os.Worker.Steps.Invariant.{IsWell, IsSound, IsActive}

avoids : (x : ℕ) (ps : List ℕ) → ¬ Mem x ps → All (λ p. p ≢ x) ps
avoids x [] n = tt
avoids x (p ∷ ps) n = (λ e. n (rw e mem-cons_self), avoids x ps (λ m. n (mem-cons_of_mem p m)))

module _ (P : ℕ → Type 0) where
  pub All-append : (ps qs : List ℕ) → All P ps → All P qs → All P (ps ++ qs)
  All-append [] qs a b = b
  All-append (p ∷ ps) qs a b = (a.0, All-append ps qs a.1 b)

  All-split : (ps qs : List ℕ) → All P (ps ++ qs) → All P ps × All P qs
  All-split [] qs a = (tt, a)
  All-split (p ∷ ps) qs a = let (l, r) = All-split ps qs a.1 in ((a.0, l), r)

last_first : (x : ℕ) (ps qs : List ℕ) → Perm ((ps ++ (x ∷ [])) ++ qs) (x ∷ (ps ++ qs))
last_first x [] qs = Perm.refl (x ∷ qs)
last_first x (p ∷ ps) qs = Perm.trans (Perm.cons p (last_first x ps qs)) (Perm.swap x p (ps ++ qs))

-- A number above all numbers given out is new.
new_number :
    (h : Store) (n : ℕ) (ps : List ℕ)
    → All (λ p. (h p).thread_id ≤ n) ps
    → ¬ Mem (n + 1) (tids h ps)
new_number h n [] a m = not-mem-nil m
new_number h n (p ∷ ps) a m = new_number h n ps a.1 (mem_of_ne_of_mem (λ e. omega (arith, a.0)) m)

module _ (h h' : Store) where
  tids-All : (ps : List ℕ) → All (λ p. h' p ≡ h p) ps → tids h' ps ≡ tids h ps
  tids-All [] a = refl
  tids-All (p ∷ ps) a = ground (arith, a.0, tids-All ps a.1)

  find_node-All :
      (ps : List ℕ) (t : ℕ) → All (λ p. h' p ≡ h p) ps → find_node h' ps t ≡ find_node h ps t
  unfolding find_node
  find_node-All [] t a = refl
  find_node-All (p ∷ ps) t a = ground (arith, a.0, find_node-All ps t a.1)

module _ (w : World) (item now : ℕ) (can : CanCreate w item) (act : IsActive w)
    (v : IsSound w) where
  abbrev created : World
  created = record w {
    store = update w.store item (new_tcb (w.last_created_worker_tid + 1) now);
    last_created_worker_tid = w.last_created_worker_tid + 1;
    q_arrival = record {
      size = length w.q_arrival.items + 1;
      items = w.q_arrival.items ++ (item ∷ []);
    };
  }

  worker_create-created : (worker_create w item now).0 ≡ created
  unfolding worker_create enqueue
  worker_create-created =
      let e : (w.last_created_worker_tid + 1) % 2 ^ 32 ≡ w.last_created_worker_tid + 1 =
        let b = can.numbers_left in omega arith in
      let s : (w.q_arrival.size + 1) % 2 ^ 16 ≡ length w.q_arrival.items + 1 =
        let b = v.ready.room in let a = v.ready.arrivals in omega arith in
      rw (e, s) refl

  same : (p : ℕ) → p ≢ item → created.store p ≡ w.store p
  same p ne = ground arith

  elsewhere : All (λ p. p ≢ item) (w.running ∷ (w.q_arrival.items ++ w.tcbs.nodes))
  elsewhere = avoids item _ (subst (λ ps. ¬ Mem item ps) (candidates_running w act.0) can.fresh)

  candidates-created : Perm (candidates created) (item ∷ candidates w)
  candidates-created =
      Perm.trans
        (Perm.append_left (present w.running) (last_first item w.q_arrival.items w.tcbs.nodes))
        (perm_middle (present w.running) (w.q_arrival.items ++ w.tcbs.nodes))

  others_same : All (λ p. created.store p ≡ w.store p) (candidates w)
  others_same = All-map (candidates w) same (avoids item (candidates w) can.fresh)

  tids_bound : All (λ p. (w.store p).thread_id ≤ w.last_created_worker_tid) (candidates w)
  tids_bound =
      subst (All (λ p. (w.store p).thread_id ≤ w.last_created_worker_tid))
        (sym (candidates_running w act.0))
        (
          (v.runner act.0).created,
          All-append (λ p. (w.store p).thread_id ≤ w.last_created_worker_tid) w.q_arrival.items
              w.tcbs.nodes (All-map w.q_arrival.items (λ p k. k.created) v.arrivals)
              (All-map w.tcbs.nodes (λ p k. k.created) v.waiting),
        )

  created-IsDistinct : IsDistinct created.store (item ∷ candidates w)
  created-IsDistinct =
      let e : (created.store item).thread_id ≡ w.last_created_worker_tid + 1 = ground arith in
      let t = tids-All w.store created.store (candidates w) others_same in
      Nodup-cons.1 (
        rw (e, t) (new_number w.store w.last_created_worker_tid (candidates w) tids_bound),
        rw t v.ready.distinct,
      )

  abbrev absent : All (λ p. p ≢ item) w.q_arrival.items × All (λ p. p ≢ item) w.tcbs.nodes
  absent = All-split (λ p. p ≢ item) w.q_arrival.items w.tcbs.nodes elsewhere.1

  created-IsReady : IsReady created
  created-IsReady = record {
    arrivals = omega (arith, length-append w.q_arrival.items (item ∷ []));
    sized = v.ready.sized;
    room = let b = can.places_left in omega (arith, length-append w.q_arrival.items (item ∷ []));
    sorted =
        IsSorted-usage w.store created.store w.tcbs.nodes
          (All-map w.tcbs.nodes
            (λ p ne.
              let e = same p ne in
              record {
                tid = ap (λ t. t.thread_id) e;
                quantums = ap (λ t. t.quantums_elapsed) e;
                amount = ap (λ t. t.quantum_amt_used) e;
              })
            absent.1)
          v.ready.sorted;
    distinct = IsDistinct-perm created.store (Perm.symm candidates-created) created-IsDistinct;
  }

  old-IsWell : (p : ℕ) → p ≢ item → IsWell w p → IsWell created p
  old-IsWell p ne k =
      let e = same p ne in
      record {
        address = k.address;
        numbered = rw e k.numbered;
        created = rw e (omega (arith, k.created));
        seeks = rw e k.seeks;
      }

  new-IsWell : IsWell created item
  new-IsWell =
      let e : created.store item ≡ new_tcb (w.last_created_worker_tid + 1) now = ground arith in
      record {
        address = can.allocated;
        numbered = rw e (omega arith);
        created = rw e (omega arith);
        seeks = rw e (λ ne. absurd (ne refl));
      }

  new_unblocked : is_blocked (created.store item) ≡ false
  unfolding is_blocked
  new_unblocked = ground arith

  created-IsSound : IsSound created
  created-IsSound = record {
    ready = created-IsReady;
    runner = λ _. old-IsWell w.running elsewhere.0 (v.runner act.0);
    arrivals =
        All-append (IsWell created) w.q_arrival.items (item ∷ [])
          (All-zip w.q_arrival.items old-IsWell absent.0 v.arrivals) (new-IsWell, tt);
    waiting = All-zip w.tcbs.nodes old-IsWell absent.1 v.waiting;
    unblocked =
        All-append (λ p. is_blocked (created.store p) ≡ false) w.q_arrival.items (item ∷ [])
          (All-zip w.q_arrival.items (λ p ne u. ap is_blocked (same p ne) ∙ u) absent.0 v.unblocked)
          (new_unblocked, tt);
    bound = omega (arith, can.numbers_left);
    mutex_nums = v.mutex_nums;
    ended_count = v.ended_count;
  }

  pub worker_create-IsSound :
      IsSound (worker_create w item now).0 × IsActive (worker_create w item now).0
  worker_create-IsSound =
      rw worker_create-created
        (created-IsSound, (act.0, ap is_blocked (same w.running elsewhere.0) ∙ act.1))
