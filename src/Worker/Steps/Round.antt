-- ===== src/Worker/Steps/Round.antt =====
-- p2/code/thread-worker.c: a round of `sched_psjf` gives a sound state in which a thread runs.
use mathlib.Core.List.{Mem, mem-cons_self, mem-cons_of_mem, mem-append_left, mem-append_right}
use mathlib.Core.List.Perm
use mathlib.Core.Option.{some-injective}
use mathlib.Core.Path.{subst}
use cs416_os.Prelude.{
  ℕ, ◌^◌, ◌<◌, ◌≤◌, ◌≡◌, ◌≢◌, refl, sym, ap, ◌∙◌, some, List, [], ◌∷◌, ◌++◌, arith, All, length,
  length-append,
}
use cs416_os.Worker.World.{World}
use cs416_os.Worker.Psjf.{sched_psjf}
use cs416_os.Worker.Psjf.Choice.{IsDistinct-perm}
use cs416_os.Worker.Psjf.Round.{IsReady, Chosen, candidates, present, sched_psjf_lem}
use cs416_os.Worker.Psjf.Parts.{Kept, sched_psjf-Kept, sched_psjf-All, sched_psjf_found}
use cs416_os.Worker.Steps.Frame.{All-map, length-perm, tids-same, candidates_running}
use cs416_os.Worker.Steps.Invariant.{IsWell, IsSound, IsActive}

Mems : (ps : List ℕ) → All (λ p. Mem p ps) ps
Mems [] = tt
Mems (p ∷ ps) = (mem-cons_self, All-map ps (λ q m. mem-cons_of_mem p m) (Mems ps))

module _ (w w' : World) (now later : ℕ) (e : sched_psjf w now later ≡ some w') where
  kept : Kept w w' now later e
  kept = sched_psjf-Kept w w' now later e

  is_candidate :
      (w.running ≢ 0 → Mem w.running (candidates w))
      × All (λ p. Mem p (candidates w)) w.q_arrival.items
      × All (λ p. Mem p (candidates w)) w.tcbs.nodes
  is_candidate = (
    λ ne. subst (Mem w.running) (sym (candidates_running w ne)) mem-cons_self,
    All-map w.q_arrival.items (λ p m. mem-append_right (present w.running) (mem-append_left _ m))
        (Mems _),
    All-map w.tcbs.nodes
        (λ p m. mem-append_right (present w.running) (mem-append_right w.q_arrival.items m))
        (Mems _),
  )

  -- A round that ends is one that `sched_psjf_lem` describes.
  pub sched_psjf-Chosen : IsReady w → Chosen w w'
  sched_psjf-Chosen v =
      let (r, a, t) = is_candidate in
      let (p, m, u) = sched_psjf_found w w' now later e (λ p. Mem p (candidates w)) r a t in
      let (w'', e', c) = sched_psjf_lem w now later p v m u in
      subst (Chosen w) (some-injective _ _ (sym e' ∙ e)) c

  length-candidates : IsReady w → length (candidates w) < 2 ^ 16
  length-candidates v =
      let front : length (present w.running) ≤ 1 = ground arith in
      omega (
        arith,
        front,
        v.room,
        v.sized.counted,
        length-append (present w.running) (w.q_arrival.items ++ w.tcbs.nodes),
        length-append w.q_arrival.items w.tcbs.nodes,
      )

  candidates-round : IsReady w → w'.running ≢ 0 → candidates w' ≡ w'.running ∷ w'.tcbs.nodes
  candidates-round v ne =
      candidates_running w' ne
      ∙ ap (λ q. w'.running ∷ (q.items ++ w'.tcbs.nodes)) (sched_psjf-Chosen v).arrivals_done

  IsReady-round : IsReady w → w'.running ≢ 0 → IsReady w'
  IsReady-round v ne =
      let c = sched_psjf-Chosen v in
      record {
        arrivals = rw c.arrivals_done refl;
        sized = c.sized;
        room =
            rw c.arrivals_done
              (omega (arith, c.sized.counted, length-perm c.all_kept, length-candidates v));
        sorted = c.sorted;
        distinct =
            rw
              (
                candidates-round v ne,
                tids-same w.store w'.store (λ q. (kept.same q).tid) (w'.running ∷ w'.tcbs.nodes),
              )
              (IsDistinct-perm w.store (Perm.symm c.all_kept) v.distinct);
      }

  IsWell-round : (p : ℕ) → IsWell w p → IsWell w' p
  IsWell-round p k =
      let s = kept.same p in
      record {
        address = k.address;
        numbered = rw s.tid k.numbered;
        created = rw (s.tid, kept.last) k.created;
        seeks = rw (s.seeking, kept.mutexes, kept.mutex_num) k.seeks;
      }

  pub round-IsSound : IsSound w → IsSound w' × IsActive w'
  round-IsSound v =
      let (r, t, a) = sched_psjf-All w w' now later e (IsWell w) v.runner v.arrivals v.waiting in
      let c = sched_psjf-Chosen v.ready in
      let ne = r.address in
      (
        record {
          ready = IsReady-round v.ready ne;
          runner = λ _. IsWell-round w'.running r;
          arrivals = All-map w'.q_arrival.items IsWell-round a;
          waiting = All-map w'.tcbs.nodes IsWell-round t;
          unblocked = rw c.arrivals_done tt;
          bound = rw kept.last v.bound;
          mutex_nums = rw (kept.mutexes, kept.mutex_num) v.mutex_nums;
          ended_count = rw kept.ended v.ended_count;
        },
        (ne, c.unblocked),
      )
