-- ===== src/Worker/Steps/Ends.antt =====
-- p2/code/thread-worker.c: the end of the running thread keeps the state sound.
use mathlib.Core.List.{Nodup-cons, map-append, mem-append_right}
use mathlib.Core.Option.{some-injective}
use mathlib.Core.Path.{subst}
use cs416_os.Prelude.{
  ℕ, ◌^◌, ◌==◌, ◌≡◌, refl, sym, ap, ◌∙◌, false, not, inl, inr, none, some, List, [], ◌∷◌, ◌%◌,
  length, arith, >>=-eq-some, assert-eq-some,
}
use cs416_os.Worker.Tcb.{Store, Tcb, is_blocked}
use cs416_os.Worker.ThreadList.{ThreadList, contains, find_node, insert_at_front}
use cs416_os.Worker.World.{World, current, set_current}
use cs416_os.Worker.Threads.{
  alert_one, alert_each, alert_waiting_threads, clean_exited_worker_thread,
}
use cs416_os.Worker.Threads.Alert.{Woken, alert_waiting_threads_lem}
use cs416_os.Worker.Psjf.Choice.{IsDistinct, find_node-none}
use cs416_os.Worker.Psjf.Round.{IsReady, candidates}
use cs416_os.Worker.Steps.Frame.{
  All-map, SameUsage, IsSorted-usage, tids-same, find_node-same, candidates_running,
}
use cs416_os.Worker.Steps.Invariant.{IsWell, IsSound, IsActive}

insert_at_front-count :
    (h : Store) (l : ThreadList) (p : ℕ)
    → l.size ≡ length l.nodes % 2 ^ 16
    → (insert_at_front h l p).size ≡ length (insert_at_front h l p).nodes % 2 ^ 16
unfolding insert_at_front
insert_at_front-count h l p e = omega (arith, e)

-- Waking writes to tcbs and to the callers' variables alone.
abbrev pub OnlyWrites : World → World → Type 0
OnlyWrites w w' = w' ≡ record w { store = w'.store; results = w'.results }

alert_one-OnlyWrites :
    (w w' : World) (p ended value : ℕ) → alert_one w p ended value ≡ some w' → OnlyWrites w w'
unfolding alert_one
alert_one-OnlyWrites w w' p ended value e = ground arith

alert_each-OnlyWrites :
    (w w' : World) (ps : List ℕ) (ended value : ℕ)
    → alert_each w ps ended value ≡ some w'
    → OnlyWrites w w'
unfolding alert_each
alert_each-OnlyWrites w w' [] ended value e =
    let e' = some-injective w w' e in subst (OnlyWrites w) e' refl
alert_each-OnlyWrites w w' (p ∷ ps) ended value e =
    let (w₁, e₁, e₂) =
      >>=-eq-some (alert_one w p ended value) (λ w₁. alert_each w₁ ps ended value) e in
    let a = alert_one-OnlyWrites w w₁ p ended value e₁ in
    let b = alert_each-OnlyWrites w₁ w' ps ended value e₂ in
    let f : World → World = λ w₁. record w₁ { store = w'.store; results = w'.results } in b ∙ ap f a

module _ (w : World) (now : ℕ) (act : IsActive w) (v : IsSound w) where
  abbrev finished : World
  finished = set_current w (record (current w) { completion = now })

  abbrev done : Tcb
  done = current finished

  done_tid : done.thread_id ≡ (current w).thread_id
  done_tid = ground arith

  abbrev listed : World
  listed = record finished { ended_tcbs = insert_at_front finished.store w.ended_tcbs w.running }

  not_listed : contains finished.store w.tcbs done.thread_id ≡ none
  unfolding contains
  not_listed =
      let d = subst (IsDistinct w.store) (candidates_running w act.0) v.ready.distinct in
      let fresh = find_node-none w.store w.tcbs.nodes (current w).thread_id (λ m.
        (Nodup-cons.0 d).0 (
          rw (map-append (λ p. (w.store p).thread_id) w.q_arrival.items) (mem-append_right _ m))) in
      ap (find_node finished.store w.tcbs.nodes) done_tid
      ∙ find_node-same w.store finished.store (λ q. ground arith) w.tcbs.nodes _
      ∙ fresh

  -- What the cleanup context does before it swaps to the scheduler.
  pub cleaned :
      (w' : World)
      → clean_exited_worker_thread w now ≡ some w'
      → (w₃ : World) × (alert_waiting_threads listed done.thread_id done.ret_value ≡ some w₃)
        × (record w₃ { running = 0 } ≡ w')
  unfolding clean_exited_worker_thread
  cleaned w' e =
      let e₁ = rw not_listed at e in
      let (_, e₂) = assert-eq-some (not (listed.ended_tcbs.size == 0)) _ e₁ in
      let (_, e₃) = assert-eq-some (not (w.running == 0)) _ e₂ in
      let (w₃, a, r) =
        >>=-eq-some (alert_waiting_threads listed done.thread_id done.ret_value)
          (λ w₃. some (record w₃ { running = 0 })) e₃ in
      (w₃, a, some-injective _ _ r)

  module _ (h : Store) (results : ℕ → ℕ)
      (woken : (q : ℕ) → Woken (finished.store q) (h q) done.thread_id) where
    abbrev swapped : World
    swapped = record listed { store = h; results = results; running = 0 }

    tid_same : (q : ℕ) → (h q).thread_id ≡ (w.store q).thread_id
    tid_same q = ground (arith, woken q)

    usage_same : (q : ℕ) → SameUsage (h q) (w.store q)
    usage_same q = record {
      tid = ground (arith, woken q);
      quantums = ground (arith, woken q);
      amount = ground (arith, woken q);
    }

    seeking_same : (q : ℕ) → (h q).seeking_lock ≡ (w.store q).seeking_lock
    seeking_same q = ground (arith, woken q)

    still_unblocked : (q : ℕ) → is_blocked (w.store q) ≡ false → is_blocked (h q) ≡ false
    unfolding is_blocked
    still_unblocked q u = ground (arith, woken q)

    swapped-IsWell : (q : ℕ) → IsWell w q → IsWell swapped q
    swapped-IsWell q k = record {
      address = k.address;
      numbered = rw (tid_same q) k.numbered;
      created = rw (tid_same q) k.created;
      seeks = rw (seeking_same q) k.seeks;
    }

    swapped-IsReady : IsReady swapped
    swapped-IsReady =
        let d = subst (IsDistinct w.store) (candidates_running w act.0) v.ready.distinct in
        record {
          arrivals = v.ready.arrivals;
          sized = v.ready.sized;
          room = v.ready.room;
          sorted =
              IsSorted-usage w.store h w.tcbs.nodes
                (All-map w.tcbs.nodes (λ q _. usage_same q) v.waiting) v.ready.sorted;
          distinct = rw (tids-same w.store h tid_same (candidates swapped)) (Nodup-cons.0 d).1;
        }

    swapped-IsSound : IsSound swapped
    swapped-IsSound = record {
      ready = swapped-IsReady;
      runner = λ ne. absurd (ne refl);
      arrivals = All-map w.q_arrival.items swapped-IsWell v.arrivals;
      waiting = All-map w.tcbs.nodes swapped-IsWell v.waiting;
      unblocked = All-map w.q_arrival.items still_unblocked v.unblocked;
      bound = v.bound;
      mutex_nums = v.mutex_nums;
      ended_count = one_more;
    }
      where
        one_more : swapped.ended_tcbs.size ≡ length swapped.ended_tcbs.nodes % 2 ^ 16
        one_more = insert_at_front-count finished.store w.ended_tcbs w.running v.ended_count

pub clean-IsSound :
    (w : World) (now : ℕ)
    → IsActive w
    → IsSound w
    → (w' : World) → clean_exited_worker_thread w now ≡ some w'
    → IsSound w'
unfolding alert_waiting_threads
clean-IsSound w now act v w' e =
    let (w₃, a, r) = cleaned w now act v w' e in
    let n = (v.runner act.0).numbered in
    elim (alert_waiting_threads_lem (listed w now act v) (done w now act v).thread_id
      (done w now act v).ret_value (ground (arith, done_tid w now act v))) [
        | inl (p, m, k, nz, f) ↦ absurd (cc)
        | inr (w₄, f, cleared, woken) ↦
            let only = alert_each-OnlyWrites (listed w now act v) w₄ w.tcbs.nodes _ _ f in
            let stop : World → World = λ u. record u { running = 0 } in
            subst IsSound (sym (ap stop only) ∙ ap stop (some-injective _ _ (sym f ∙ a)) ∙ r)
              (swapped-IsSound w now act v w₄.store w₄.results woken)
      ]

pub clean-mutexes :
    (w : World) (now : ℕ)
    → IsActive w
    → IsSound w
    → (w' : World) → clean_exited_worker_thread w now ≡ some w'
    → w'.mutexes ≡ w.mutexes
unfolding alert_waiting_threads
clean-mutexes w now act v w' e =
    let (w₃, a, r) = cleaned w now act v w' e in
    let only = alert_each-OnlyWrites (listed w now act v) w₃ w.tcbs.nodes _ _ a in
    ap (λ w. w.mutexes) (sym r) ∙ ap (λ w. w.mutexes) only
