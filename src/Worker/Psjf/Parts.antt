-- ===== src/Worker/Psjf/Parts.antt =====
-- p2/code/thread-worker.c: every round of `sched_psjf` that ends only moves tcbs about, whatever the
-- state it starts from.
use mathlib.Core.Option.{some-injective}
use cs416_os.Prelude.{
  ap, sym, ◌∙◌, ℕ, ◌==◌, ◌≡◌, false, inl, inr, some, arith, ◌⊎◌, ◌≢◌, All, Bool-cases,
  if◌then◌else◌, ◌>>=◌, >>=-eq-some,
}
use mathlib.Core.Path.{subst}
use cs416_os.Worker.Tcb.{Store, is_blocked}
use cs416_os.Worker.ThreadList.{
  ThreadList, insert_by_usage, remove_node, remove_from, first_unblocked,
  find_first_unblocked_thread,
}
use cs416_os.Worker.ThreadList.Remove.{remove_node-All, remove_node-taken}
use cs416_os.Worker.Queue.{Queue}
use cs416_os.Worker.World.{World}
use cs416_os.Worker.Psjf.{admit, run_queue, dispatch, choose, picked, sched_psjf}
use cs416_os.Worker.Psjf.Dispatch.{
  SameThread, dispatch_fields, dispatch-SameThread, dispatch_tables,
}
use cs416_os.Worker.Psjf.Members.{insert_by_usage-All, admit-All, first_unblocked-All}

-- The parts of a round that ends.
record Parts (w w' : World) (now later : ℕ) : Type 0 where
  queue : Queue × ThreadList
  admitted : ThreadList
  next : ℕ
  removed : ℕ × ThreadList
  admits : admit w.store w.q_arrival.size w.q_arrival w.tcbs ≡ some (queue.0, admitted)
  inserts :
      ((w.running ≡ 0) × (queue.1 ≡ admitted))
      ⊎ ((w.running ≢ 0) × (insert_by_usage w.store admitted w.running ≡ some queue.1))
  finds : first_unblocked w.store queue.1.nodes ≡ some next
  removes : remove_from w.store queue.1 (w.store next).thread_id ≡ some removed
  ends : w' ≡ dispatch (picked w queue.0 removed.0 removed.1) now later

rejoined :
    (w : World) (a b : Queue × ThreadList)
    → (if w.running == 0
        then some b
        else (insert_by_usage w.store b.1 w.running >>= λ l. some (b.0, l)))
      ≡ some a
    → (b.0 ≡ a.0)
      × (((w.running ≡ 0) × (a.1 ≡ b.1))
          ⊎ ((w.running ≢ 0) × (insert_by_usage w.store b.1 w.running ≡ some a.1)))
rejoined w a b e = elim (Bool-cases (w.running == 0)) [
  | inl idle ↦
      let e' : b ≡ a = ground arith in
      (ap (λ x. x.0) e', inl (ground arith, sym (ap (λ x. x.1) e')))
  | inr busy ↦
      let (l, el, e₁) =
        >>=-eq-some (insert_by_usage w.store b.1 w.running) (λ l. some (b.0, l)) (rw busy at e) in
      let e' = some-injective _ _ e₁ in
      (ap (λ x. x.0) e', inr (ground arith, el ∙ ap (λ x. some x.1) e'))
]

run_queue-parts :
    (w : World) (a : Queue × ThreadList)
    → run_queue w ≡ some a
    → (l : ThreadList) × (admit w.store w.q_arrival.size w.q_arrival w.tcbs ≡ some (a.0, l))
      × (((w.running ≡ 0) × (a.1 ≡ l))
          ⊎ ((w.running ≢ 0) × (insert_by_usage w.store l w.running ≡ some a.1)))
unfolding run_queue
run_queue-parts w a e =
    let (b, rb, e₁) =
      >>=-eq-some (admit w.store w.q_arrival.size w.q_arrival w.tcbs)
        (λ b.
          if w.running == 0
          then some b
          else (insert_by_usage w.store b.1 w.running >>= λ l. some (b.0, l)))
        e in
    let j = rejoined w a b e₁ in (b.1, rb ∙ ap (λ q. some (q, b.1)) j.0, j.1)

sched_psjf-Parts :
    (w w' : World) (now later : ℕ) → sched_psjf w now later ≡ some w' → Parts w w' now later
unfolding sched_psjf find_first_unblocked_thread
sched_psjf-Parts w w' now later e =
    let (a, ra, e₁) = >>=-eq-some (run_queue w) (choose w now later) e in
    let (p, rp, e₂) =
      >>=-eq-some (first_unblocked w.store a.1.nodes)
        (λ p. remove_from w.store a.1 (w.store p).thread_id >>= λ r.
          some (dispatch (picked w a.0 r.0 r.1) now later))
        e₁ in
    let (r, rr, e₃) =
      >>=-eq-some (remove_from w.store a.1 (w.store p).thread_id)
        (λ r. some (dispatch (picked w a.0 r.0 r.1) now later)) e₂ in
    let (l, admits, inserts) = run_queue-parts w a ra in
    record {
      queue = a;
      admitted = l;
      next = p;
      removed = r;
      admits = admits;
      inserts = inserts;
      finds = rp;
      removes = rr;
      ends = sym (some-injective _ _ e₃);
    }

remove_from-node :
    (h : Store) (l : ThreadList) (r : ℕ × ThreadList) (t : ℕ)
    → remove_from h l t ≡ some r
    → remove_node h l.nodes t ≡ some (r.0, r.1.nodes)
unfolding remove_from
remove_from-node h l r t e = ground arith

remove_from-All :
    (h : Store) (P : ℕ → Type 0) (l : ThreadList) (r : ℕ × ThreadList) (t : ℕ)
    → remove_from h l t ≡ some r
    → All P l.nodes
    → P r.0 × All P r.1.nodes
remove_from-All h P l r t e all =
    let e' = remove_from-node h l r t e in
    (
      remove_node-taken h P t r.0 l.nodes r.1.nodes e' all,
      remove_node-All h P t r.0 l.nodes r.1.nodes e' all,
    )

module _ (w w' : World) (now later : ℕ) (e : sched_psjf w now later ≡ some w') where
  module _ (P : ℕ → Type 0) (pr : w.running ≢ 0 → P w.running) (pa : All P w.q_arrival.items)
      (pt : All P w.tcbs.nodes) where
    -- What holds of the candidates holds of the run queue that the round chooses from.
    Parts-All : (k : Parts w w' now later) → All P k.queue.0.items × All P k.queue.1.nodes
    Parts-All k =
        let a = admit-All w.store P _ w.q_arrival k.queue.0 w.tcbs k.admitted k.admits pa pt in
        (a.0, joined k.inserts a.1)
      where
        joined :
            {q a : ThreadList}
            → ((w.running ≡ 0) × (q ≡ a))
              ⊎ ((w.running ≢ 0) × (insert_by_usage w.store a w.running ≡ some q))
            → All P a.nodes
            → All P q.nodes
        joined (inl (z, i)) all = subst (λ l. All P l.nodes) (sym i) all
        joined {q} {a} (inr (ne, i)) all = insert_by_usage-All w.store P a q w.running i (pr ne) all

    -- So it does of the thread chosen and of those that wait.
    pub sched_psjf-All : P w'.running × All P w'.tcbs.nodes × All P w'.q_arrival.items
    sched_psjf-All =
        let k = sched_psjf-Parts w w' now later e in
        let all = Parts-All k in
        let r = remove_from-All w.store P k.queue.1 k.removed _ k.removes all.1 in
        let f = dispatch_fields (picked w k.queue.0 k.removed.0 k.removed.1) now later in
        rw (k.ends, f.0, f.1, f.2) (r.0, r.1, all.0)

    -- A round that ends has found a thread that is not blocked.
    pub sched_psjf_found : (p : ℕ) × P p × (is_blocked (w.store p) ≡ false)
    sched_psjf_found =
        let k = sched_psjf-Parts w w' now later e in
        let u = first_unblocked-All w.store P k.queue.1.nodes k.next k.finds (Parts-All k).1 in
        (k.next, u.0, u.1)

  -- What a round leaves as it was.
  pub record Kept : Type 0 where
    pub same : (q : ℕ) → SameThread (w'.store q) (w.store q)
    pub mutexes : w'.mutexes ≡ w.mutexes
    pub ended : w'.ended_tcbs ≡ w.ended_tcbs
    pub last : w'.last_created_worker_tid ≡ w.last_created_worker_tid
    pub mutex_num : w'.current_mutex_num ≡ w.current_mutex_num

  pub sched_psjf-Kept : Kept
  sched_psjf-Kept =
      let k = sched_psjf-Parts w w' now later e in
      let v = picked w k.queue.0 k.removed.0 k.removed.1 in
      let f = dispatch_fields v now later in
      let g = dispatch_tables v now later in
      record {
        same = λ q. rw k.ends (dispatch-SameThread v now later q);
        mutexes = rw k.ends g.0;
        ended = rw k.ends g.1;
        last = rw k.ends g.2;
        mutex_num = rw k.ends g.3;
      }
