-- ===== src/Worker/Mlfq/Search.antt =====
-- p2/code/thread-worker.c: the choice of `sched_mlfq` within one level.
use cs416_os.Prelude.{
  ℕ, ◌+◌, ◌-◌, ◌^◌, ◌<◌, ◌≡◌, refl, ap, ◌∙◌, true, false, some, List, [], ◌∷◌, ◌++◌, arith, length,
  length-append, All, Bool-cases, inl, inr, ◌⊎◌,
}
use mathlib.Core.List.{append_assoc, append-nil}
use cs416_os.Worker.Tcb.{Store, is_blocked}
use cs416_os.Worker.Queue.{Queue, is_empty, enqueue, dequeue}
use cs416_os.Worker.Mlfq.{search_queue}

dequeue-front :
    (x : ℕ) (xs : List ℕ) (size : ℕ)
    → 0 < size
    → size < 2 ^ 16
    → dequeue (record { size = size; items = x ∷ xs })
      ≡ some (x, record { size = size - 1; items = xs })
unfolding dequeue is_empty
dequeue-front x xs size pos small = ground arith

enqueue-back :
    (x : ℕ) (xs : List ℕ) (size : ℕ)
    → 0 < size
    → size < 2 ^ 16
    → enqueue (record { size = size - 1; items = xs }) x
      ≡ record { size = size; items = xs ++ (x ∷ []) }
unfolding enqueue
enqueue-back x xs size pos small = ground arith

module _ (h : Store) where
  abbrev pub Blocked : List ℕ → Type 0
  Blocked = All (λ p. is_blocked (h p) ≡ true)

  -- What the search makes of the threads `todo`, when it has sent those of `done` to the end: all are
  -- blocked and stand in their order again, or the first unblocked one is taken out and those before
  -- it stand behind those after it.
  pub data Turned (todo done : List ℕ) (size : ℕ) : Type 0 where
    all_blocked :
        Blocked todo
        → search_queue h (length todo) (record { size = size; items = todo ++ done })
          ≡ some (0, record { size = size; items = done ++ todo })
        → Turned todo done size
    taken :
        (before : List ℕ) (p : ℕ) (after : List ℕ)
        → todo ≡ before ++ (p ∷ after)
        → Blocked before
        → is_blocked (h p) ≡ false
        → search_queue h (length todo) (record { size = size; items = todo ++ done })
          ≡ some (p, record { size = size - 1; items = after ++ (done ++ before) })
        → Turned todo done size

  search-blocked :
      (x : ℕ) (xs done : List ℕ) (size : ℕ)
      → is_blocked (h x) ≡ true
      → 0 < size
      → size < 2 ^ 16
      → search_queue h (length (x ∷ xs)) (record { size = size; items = x ∷ xs ++ done })
        ≡ search_queue h (length xs) (record { size = size; items = (xs ++ done) ++ (x ∷ []) })
  unfolding search_queue
  search-blocked x xs done size b pos small = ground (
    arith,
    dequeue-front x (xs ++ done) size pos small,
    enqueue-back x (xs ++ done) size pos small,
  )

  search-unblocked :
      (x : ℕ) (xs done : List ℕ) (size : ℕ)
      → is_blocked (h x) ≡ false
      → 0 < size
      → size < 2 ^ 16
      → search_queue h (length (x ∷ xs)) (record { size = size; items = x ∷ xs ++ done })
        ≡ some (x, record { size = size - 1; items = xs ++ done })
  unfolding search_queue dequeue is_empty
  search-unblocked x xs done size b pos small = ground arith

  Turned-step :
      (x : ℕ) (xs done : List ℕ) (size : ℕ)
      → is_blocked (h x) ≡ true
      → 0 < size
      → size < 2 ^ 16
      → Turned xs (done ++ (x ∷ [])) size
      → Turned (x ∷ xs) done size
  Turned-step x xs done size b pos small (all_blocked bs e) =
      all_blocked (b, bs)
        (search-blocked x xs done size b pos small
          ∙ rw (append_assoc xs done (x ∷ [])) (rw (append_assoc done (x ∷ []) xs) at e))
  Turned-step x xs done size b pos small (taken before p after e bs u r) =
      taken (x ∷ before) p after (ap (λ l. x ∷ l) e) (b, bs) u
        (search-blocked x xs done size b pos small
          ∙ rw (append_assoc xs done (x ∷ [])) (rw (append_assoc done (x ∷ []) before) at r))

  search_queue-Turned :
      (todo done : List ℕ) (size : ℕ)
      → size ≡ length todo + length done
      → size < 2 ^ 16
      → Turned todo done size
  unfolding search_queue
  search_queue-Turned [] done size c small = all_blocked tt (rw (append-nil done) refl)
  search_queue-Turned (x ∷ xs) done size c small = elim (Bool-cases (is_blocked (h x))) [
    | inl b ↦ Turned-step x xs done size b (omega arith) small (
        search_queue-Turned xs (done ++ (x ∷ [])) size (omega (arith, length-append done (x ∷ [])))
          small)
    | inr u ↦
        taken [] x xs refl tt u
          (search-unblocked x xs done size u (omega arith) small ∙ rw (append-nil done) refl)
  ]

  -- The multilevel scheduler's search of a level's queue, which counts its threads, fails no
  -- assertion; if all are blocked it finds none and leaves the queue as it was, otherwise it takes
  -- out the first thread that is not blocked, and the blocked ones before it go, in order, to the
  -- end.
  pub search_queue_lem :
      (items : List ℕ) (size : ℕ)
      → size ≡ length items
      → size < 2 ^ 16
      → let q : Queue = record { size = size; items = items } in
        (Blocked items × (search_queue h size q ≡ some (0, q)))
        ⊎ ((before : List ℕ) × (p : ℕ) × (after : List ℕ) × (items ≡ before ++ (p ∷ after))
            × Blocked before
            × (is_blocked (h p) ≡ false)
            × (search_queue h size q
                ≡ some (p, record { size = size - 1; items = after ++ before })))
  search_queue_lem items size c small =
      elim (search_queue-Turned items [] size (omega arith) small) [
        | all_blocked bs e ↦ inl (bs, rw (← c, append-nil items) at e)
        | taken before p after i bs u e ↦
            inr (before, p, after, i, bs, u, rw (← c, append-nil items) at e)
      ]
