-- ===== src/Worker/Psjf/Round.antt =====
-- p2/code/thread-worker.c: a whole round of `sched_psjf`.
use mathlib.Core.List.{Perm, Mem, Nodup-cons}
use mathlib.Core.List.Perm
use mathlib.Core.Path.{subst}
use native.Mathlib.Decide.{ℕ_discrete}
use cs416_os.Prelude.{
  ℕ, ◌+◌, ◌^◌, ◌<◌, ◌==◌, ◌≡◌, refl, sym, ◌∙◌, false, inl, inr, some, List, [], ◌∷◌, ◌++◌, arith,
  length, All, Option-cases, if◌then◌else◌,
}
use cs416_os.Worker.Tcb.{Store, is_blocked}
use cs416_os.Worker.ThreadList.{
  ThreadList, sub_ushort, insert_by_usage, remove_from, contains, first_unblocked,
  find_first_unblocked_thread,
}
use cs416_os.Worker.ThreadList.Sorted.{UsageLe, IsSorted}
use cs416_os.Worker.ThreadList.Insert.{IsSized, insert_by_usage_lem, first_unblocked-least}
use cs416_os.Worker.ThreadList.Remove.{
  Removed, first_unblocked-none, first_unblocked-Removed, remove_node-All,
}
use cs416_os.Worker.Queue.{empty_queue}
use cs416_os.Worker.World.{World}
use cs416_os.Worker.Psjf.{admit, run_queue, dispatch, sched_psjf, picked}
use cs416_os.Worker.Psjf.Choice.{IsDistinct, IsDistinct-perm, find_node-none, admit_lem}
use cs416_os.Worker.Psjf.Dispatch.{
  dispatch-SameThread, dispatch_fields, IsSorted-same, is_blocked-same,
}

-- The running thread, unless it has ended.
abbrev pub present : ℕ → List ℕ
present p = if p == 0 then [] else p ∷ []

-- The threads that a round chooses among.
abbrev pub candidates : World → List ℕ
candidates w = present w.running ++ (w.q_arrival.items ++ w.tcbs.nodes)

-- The state in which the scheduler context is entered.
pub record IsReady (w : World) : Type 0 where
  pub arrivals : w.q_arrival.size ≡ length w.q_arrival.items
  pub sized : IsSized w.tcbs
  pub room : w.tcbs.size + length w.q_arrival.items + 1 < 2 ^ 16
  pub sorted : IsSorted w.store w.tcbs.nodes
  pub distinct : IsDistinct w.store (candidates w)

-- The run queue that the round chooses from.
pub record RunQueue (w : World) : Type 0 where
  pub list : ThreadList
  pub runs : run_queue w ≡ some (empty_queue, list)
  pub sized : IsSized list
  pub sorted : IsSorted w.store list.nodes
  pub perm : Perm list.nodes (candidates w)

RunQueue-idle : (w : World) → IsReady w → w.running ≡ 0 → RunQueue w
unfolding run_queue
RunQueue-idle w v e =
    let d : IsDistinct w.store (w.q_arrival.items ++ w.tcbs.nodes) = rw e at v.distinct in
    let a =
      admit_lem w.store _ w.q_arrival w.tcbs refl v.arrivals v.sized (omega arith) v.sorted d in
    record {
      list = a.list;
      runs = rw (e, a.runs);
      sized = a.sized;
      sorted = a.sorted;
      perm = rw e a.perm;
    }

run_queue-insert :
    (w : World) (a l : ThreadList)
    → (w.running == 0) ≡ false
    → admit w.store w.q_arrival.size w.q_arrival w.tcbs ≡ some (empty_queue, a)
    → insert_by_usage w.store a w.running ≡ some l
    → run_queue w ≡ some (empty_queue, l)
unfolding run_queue
run_queue-insert w a l test admitted run = ground arith

candidates_busy :
    (w : World)
    → (w.running == 0) ≡ false
    → candidates w ≡ w.running ∷ (w.q_arrival.items ++ w.tcbs.nodes)
candidates_busy w test = rw test

RunQueue-busy : (w : World) → IsReady w → (w.running == 0) ≡ false → RunQueue w
RunQueue-busy w v test =
    let d = subst (IsDistinct w.store) (candidates_busy w test) v.distinct in
    let a =
      admit_lem w.store _ w.q_arrival w.tcbs refl v.arrivals v.sized (omega (arith, v.room))
        v.sorted (Nodup-cons.0 d).1 in
    let d' = IsDistinct-perm w.store (Perm.cons w.running (Perm.symm a.perm)) d in
    let (l, run, size_eq, sized, sorted, perm, _) =
      insert_by_usage_lem w.store a.list w.running a.sized (omega (arith, a.size_eq, v.room))
        a.sorted (find_node-none w.store a.list.nodes _ (Nodup-cons.0 d').0) in
    record {
      list = l;
      runs = run_queue-insert w a.list l test a.runs run;
      sized = sized;
      sorted = sorted;
      perm =
          subst (Perm l.nodes) (sym (candidates_busy w test))
            (Perm.trans perm (Perm.cons w.running a.perm));
    }

pub run_queue_lem : (w : World) → IsReady w → RunQueue w
run_queue_lem w v = elim (ℕ_discrete w.running 0) [
  | yes e ↦ RunQueue-idle w v e
  | no ne ↦ RunQueue-busy w v (ground arith)
]

-- The outcome of a round: the thread that runs next and those that wait.
pub record Chosen (w w' : World) : Type 0 where
  pub all_kept : Perm (w'.running ∷ w'.tcbs.nodes) (candidates w)
  pub arrivals_done : w'.q_arrival ≡ empty_queue
  pub unblocked : is_blocked (w'.store w'.running) ≡ false
  pub least :
      All
        (λ q. is_blocked (w.store q) ≡ false → UsageLe (w.store w'.running) (w.store q))
        w'.tcbs.nodes
  pub sorted : IsSorted w'.store w'.tcbs.nodes
  pub sized : IsSized w'.tcbs

some_unblocked :
    (h : Store) (p : ℕ) (ns : List ℕ)
    → Mem p ns
    → is_blocked (h p) ≡ false
    → (q : ℕ) × (first_unblocked h ns ≡ some q)
some_unblocked h p ns m u = elim (Option-cases (first_unblocked h ns)) [
  | inl e ↦ absurd (cc (first_unblocked-none h ns p e m))
  | inr (q, e) ↦ (q, e)
]

remove_from-Removed :
    (h : Store) (l : ThreadList) (p : ℕ) (r : Removed h l.nodes p)
    → l.size ≡ length l.nodes
    → remove_from h l (h p).thread_id
      ≡ some (p, record { size = sub_ushort l.size 1; nodes = r.rest })
unfolding remove_from contains
remove_from-Removed h l p r e = ground (arith, r.runs, r.found, r.length_eq)

IsSized-Removed :
    {h : Store} (l : ThreadList) (p : ℕ) (r : Removed h l.nodes p)
    → IsSized l
    → IsSized (record { size = sub_ushort l.size 1; nodes = r.rest })
IsSized-Removed l p r v = omega (arith, r.length_eq)

sched_psjf-picked :
    (w : World) (now later p : ℕ) (l l' : ThreadList)
    → run_queue w ≡ some (empty_queue, l)
    → first_unblocked w.store l.nodes ≡ some p
    → remove_from w.store l (w.store p).thread_id ≡ some (p, l')
    → sched_psjf w now later ≡ some (dispatch (picked w empty_queue p l') now later)
unfolding sched_psjf find_first_unblocked_thread
sched_psjf-picked w now later p l l' run found removed = ground arith

-- When the run queue and the queue of arrivals count their threads, together at most 65534, the run
-- queue is sorted, no two candidates (waiting, newly arrived or just preempted) have the same
-- number and some candidate is not blocked, a round of the shortest-job-first scheduler fails no
-- assertion and ends with an unblocked thread running that has used no more processor time than any
-- other unblocked one; the others wait in the sorted, counted run queue and no thread is lost or
-- duplicated.
pub sched_psjf_lem :
    (w : World) (now later p : ℕ)
    → IsReady w
    → Mem p (candidates w)
    → is_blocked (w.store p) ≡ false
    → (w' : World) × (sched_psjf w now later ≡ some w') × Chosen w w'
sched_psjf_lem w now later p v m u =
    let rq = run_queue_lem w v in
    let (q, e) = some_unblocked w.store p rq.list.nodes (Perm.subset (Perm.symm rq.perm) p m) u in
    let d = IsDistinct-perm w.store (Perm.symm rq.perm) v.distinct in
    let r = first_unblocked-Removed w.store rq.list.nodes q d e in
    let l' : ThreadList = record { size = sub_ushort rq.list.size 1; nodes = r.rest } in
    let best = first_unblocked-least w.store rq.list.nodes q rq.sorted e in
    let same = dispatch-SameThread (picked w empty_queue q l') now later in
    let f = dispatch_fields (picked w empty_queue q l') now later in
    (
      dispatch (picked w empty_queue q l') now later,
      sched_psjf-picked w now later q rq.list l' rq.runs e
          (remove_from-Removed w.store rq.list q r rq.sized.counted),
      record {
        all_kept = rw (f.0, f.1) (Perm.trans (Perm.symm r.perm) rq.perm);
        arrivals_done = f.2;
        unblocked = rw f.0 (is_blocked-same (same q) ∙ best.0);
        least = rw (f.0, f.1) (remove_node-All w.store _ _ q rq.list.nodes r.rest r.runs best.1);
        sorted = rw f.1 (IsSorted-same w.store _ r.rest same (r.keeps_order rq.sorted));
        sized = rw f.1 (IsSized-Removed rq.list q r rq.sized);
      },
    )
