-- ===== src/Worker/Psjf/Total.antt =====
-- p2/code/thread-worker.c: when a round of `sched_psjf` finds no thread to run.
use mathlib.Core.List.{Mem}
use mathlib.Core.List.Perm
use cs416_os.Prelude.{
  ℕ, ◌≡◌, true, false, inl, inr, ◌⊎◌, none, some, arith, Option-cases, List, [], ◌∷◌, All,
}
use cs416_os.Worker.Tcb.{is_blocked}
use cs416_os.Worker.ThreadList.{first_unblocked, find_first_unblocked_thread, ThreadList}
use cs416_os.Worker.ThreadList.Remove.{first_unblocked-none, first_unblocked-mem}
use cs416_os.Worker.Queue.{empty_queue}
use cs416_os.Worker.World.{World}
use cs416_os.Worker.Psjf.{run_queue, sched_psjf}
use cs416_os.Worker.Psjf.Round.{IsReady, Chosen, candidates, run_queue_lem, sched_psjf_lem}
use cs416_os.Worker.Psjf.Members.{first_unblocked-All}

-- All threads wait for another's end or for a mutex.
abbrev pub IsStuck : World → Type 0
IsStuck w = (p : ℕ) → Mem p (candidates w) → is_blocked (w.store p) ≡ true

sched_psjf-none :
    (w : World) (now later : ℕ) (l : ThreadList)
    → run_queue w ≡ some (empty_queue, l)
    → first_unblocked w.store l.nodes ≡ none
    → sched_psjf w now later ≡ none
unfolding sched_psjf find_first_unblocked_thread
sched_psjf-none w now later l run none_found = ground arith

all_Unit : (ps : List ℕ) → All (λ p. Unit {0}) ps
all_Unit [] = tt
all_Unit (p ∷ ps) = (tt, all_Unit ps)

unblocked_of :
    (w : World) (l : ThreadList) (p : ℕ)
    → first_unblocked w.store l.nodes ≡ some p
    → is_blocked (w.store p) ≡ false
unblocked_of w l p e =
    (first_unblocked-All w.store (λ p. Unit {0}) l.nodes p e (all_Unit l.nodes)).1

pub sched_psjf_total :
    (w : World) (now later : ℕ)
    → IsReady w
    → (IsStuck w × (sched_psjf w now later ≡ none))
      ⊎ ((w' : World) × (sched_psjf w now later ≡ some w') × Chosen w w')
sched_psjf_total w now later v =
    let rq = run_queue_lem w v in
    elim (Option-cases (first_unblocked w.store rq.list.nodes)) [
      | inl e ↦ inl (
        λ p m. first_unblocked-none w.store rq.list.nodes p e (Perm.subset (Perm.symm rq.perm) p m),
        sched_psjf-none w now later rq.list rq.runs e,
      )
      | inr (p, e) ↦ inr (
          sched_psjf_lem w now later p v
            (Perm.subset rq.perm p (first_unblocked-mem w.store rq.list.nodes p e))
            (unblocked_of w rq.list p e))
    ]
