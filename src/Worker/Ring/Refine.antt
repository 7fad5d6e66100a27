-- ===== src/Worker/Ring/Refine.antt =====
-- p2/code/thread-worker.c: the circular list is a first-in first-out queue.
use cs416_os.Prelude.{
  ℕ, ◌+◌, ◌^◌, ◌<◌, ◌≡◌, ◌≢◌, refl, sym, ◌-◌, none, some, List, [], ◌∷◌, ◌++◌, map, arith, length,
  length-append, All,
}
use cs416_os.Worker.Ring.{Nodes, Ring, empty_ring, write, set_next, enqueue, dequeue}

-- From `p` the nodes `fs` follow one another, and then `r`.
abbrev pub Links : Nodes → ℕ → List ℕ → ℕ → Type 0
Links m p [] r = (m p).next ≡ r
Links m p (f ∷ fs) r = ((m p).next ≡ f) × Links m f fs r

-- The queue is empty, or `fs` and then the rear node are its nodes, from the front.
pub data Holds (m : Nodes) (q : Ring) (xs : List ℕ) : Type 0 where
  nothing : q.size ≡ 0 → q.rear ≡ 0 → xs ≡ [] → Holds m q xs
  nodes :
      (fs : List ℕ)
      → Links m q.rear fs q.rear
      → All (λ f. f ≢ q.rear) fs
      → q.size ≡ length fs + 1
      → q.size < 2 ^ 16
      → xs ≡ map (λ f. (m f).item) fs ++ ((m q.rear).item ∷ [])
      → Holds m q xs

-- A node that `malloc` has just returned is none of the queue's.
abbrev pub IsFresh : {m : Nodes} {q : Ring} {xs : List ℕ} → ℕ → Holds m q xs → Type 0
IsFresh a (nothing s r e) = Unit
IsFresh {q = q} a (nodes fs l d s b e) = (a ≢ q.rear) × All (λ f. f ≢ a) fs

Links-extend :
    (m : Nodes) (a d r p : ℕ) (fs : List ℕ)
    → a ≢ r
    → p ≢ r
    → p ≢ a
    → All (λ f. f ≢ r) fs
    → All (λ f. f ≢ a) fs
    → Links m p fs r
    → let m₁ = write m a (record { item = d; next = 0 }) in
      Links (set_next (set_next m₁ a (m₁ r).next) r a) p (fs ++ (r ∷ [])) a
Links-extend m a d r p [] ar pr pa hr ha l = ground arith
Links-extend m a d r p (f ∷ fs) ar pr pa hr ha l =
    (ground arith, Links-extend m a d r f fs ar hr.0 ha.0 hr.1 ha.1 l.1)

Links-enqueue :
    (m : Nodes) (a d r : ℕ) (fs : List ℕ)
    → a ≢ r
    → All (λ f. f ≢ r) fs
    → All (λ f. f ≢ a) fs
    → Links m r fs r
    → let m₁ = write m a (record { item = d; next = 0 }) in
      Links (set_next (set_next m₁ a (m₁ r).next) r a) a (fs ++ (r ∷ [])) a
Links-enqueue m a d r [] ar hr ha l = (ground arith, ground arith)
Links-enqueue m a d r (f ∷ fs) ar hr ha l =
    (ground arith, Links-extend m a d r f fs ar hr.0 ha.0 hr.1 ha.1 l.1)

Links-set_next :
    (m : Nodes) (r v p : ℕ) (fs : List ℕ)
    → p ≢ r
    → All (λ f. f ≢ r) fs
    → Links m p fs r
    → Links (set_next m r v) p fs r
Links-set_next m r v p [] pr hr l = ground arith
Links-set_next m r v p (f ∷ fs) pr hr l = (ground arith, Links-set_next m r v f fs hr.0 hr.1 l.1)

Links-dequeue :
    (m : Nodes) (r f : ℕ) (fs : List ℕ)
    → f ≢ r
    → All (λ f. f ≢ r) fs
    → Links m f fs r
    → Links (set_next m r (m f).next) r fs r
Links-dequeue m r f [] fr hr l = ground arith
Links-dequeue m r f (g ∷ fs) fr hr l =
    (ground arith, Links-set_next m r (m f).next g fs hr.0 hr.1 l.1)

items-set_next :
    (m : Nodes) (r v : ℕ) (fs : List ℕ)
    → map (λ f. (set_next m r v f).item) fs ≡ map (λ f. (m f).item) fs
items-set_next m r v [] = refl
items-set_next m r v (f ∷ fs) = ground (arith, items-set_next m r v fs)

items-enqueue :
    (m : Nodes) (a d r v : ℕ) (fs : List ℕ)
    → a ≢ r
    → All (λ f. f ≢ a) fs
    → let m₁ = write m a (record { item = d; next = 0 }) in
      map (λ f. (set_next (set_next m₁ a v) r a f).item) (fs ++ (r ∷ []))
      ≡ map (λ f. (m f).item) fs ++ ((m r).item ∷ [])
items-enqueue m a d r v [] ar ha = ground arith
items-enqueue m a d r v (f ∷ fs) ar ha = ground (arith, items-enqueue m a d r v fs ar ha.1)

All-append-one : (P : ℕ → Type 0) (fs : List ℕ) (r : ℕ) → All P fs → P r → All P (fs ++ (r ∷ []))
All-append-one P [] r h p = (p, tt)
All-append-one P (f ∷ fs) r h p = (h.0, All-append-one P fs r h.1 p)

-- On a circular list that holds some threads in order, at a newly allocated node and below 65535
-- threads, enqueue gives a circular list that holds the same threads in the same order and then the
-- new one.
pub enqueue-Holds :
    (m : Nodes) (q : Ring) (xs : List ℕ) (a d : ℕ) (v : Holds m q xs)
    → IsFresh a v
    → q.size + 1 < 2 ^ 16
    → Holds (enqueue m q a d).0 (enqueue m q a d).1 (xs ++ (d ∷ []))
unfolding enqueue
enqueue-Holds m q xs a d (nothing s r e) fresh room =
    rw (s, e) (nodes [] (ground arith) tt (omega arith) (omega arith) (ground arith))
enqueue-Holds m q xs a d (nodes fs l ne s b e) fresh room =
    let m₁ : Nodes = write m a (record { item = d; next = 0 }) in
    let m₂ : Nodes = set_next (set_next m₁ a (m₁ q.rear).next) q.rear a in
    let q₂ : Ring = record { size = q.size + 1; rear = a } in
    let moved : enqueue m q a d ≡ (m₂, q₂) = ground arith in
    let last : (m₂ a).item ≡ d = ground arith in
    rw (moved, e)
      (nodes (fs ++ (q.rear ∷ [])) (Links-enqueue m a d q.rear fs fresh.0 ne fresh.1 l)
        (All-append-one (λ f. f ≢ a) fs q.rear fresh.1 (λ h. fresh.0 (sym h)))
        (omega (arith, length-append fs (q.rear ∷ []))) room
        (rw (last, items-enqueue m a d q.rear (m₁ q.rear).next fs fresh.0 fresh.1)))

-- On a circular list that holds a thread and then others, dequeue succeeds, returns the first
-- thread and leaves a circular list that holds the others in order.
pub dequeue-Holds :
    (m : Nodes) (q : Ring) (x : ℕ) (xs : List ℕ)
    → Holds m q (x ∷ xs)
    → (m' : Nodes) × (q' : Ring) × (dequeue m q ≡ some (x, m', q')) × Holds m' q' xs
unfolding dequeue
dequeue-Holds m q x xs (nothing s r e) = absurd (cc)
dequeue-Holds m q x xs (nodes [] l ne s b e) =
    (set_next m q.rear 0, empty_ring, ground arith, nothing refl refl (ground arith))
dequeue-Holds m q x xs (nodes (f ∷ fs) l ne s b e) = (
  set_next m q.rear (m f).next,
  record { size = q.size - 1; rear = q.rear },
  ground arith,
  nodes fs (Links-dequeue m q.rear f fs ne.0 ne.1 l.1) ne.1 (omega arith) (omega arith)
      (ground (arith, items-set_next m q.rear (m f).next fs)),
)

-- `dequeue` on an empty queue stops at its assertion.
pub dequeue-empty : (m : Nodes) (q : Ring) → Holds m q [] → dequeue m q ≡ none
unfolding dequeue
dequeue-empty m q (nothing s r e) = ground arith
dequeue-empty m q (nodes [] l ne s b e) = absurd (cc)
dequeue-empty m q (nodes (f ∷ fs) l ne s b e) = absurd (cc)
