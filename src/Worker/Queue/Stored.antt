-- ===== src/Worker/Queue/Stored.antt =====
-- p2/code/thread-worker.c: the queue of the schedulers is what the circular list stores.
use cs416_os.Prelude.{
  ℕ, ◌+◌, ◌^◌, ◌<◌, ◌==◌, ◌≡◌, refl, some, List, ◌∷◌, arith, Bool-cases, false, inl, inr,
}
use cs416_os.Worker.Queue.{Queue}
use cs416_os.Worker.Queue as Queue
use cs416_os.Worker.Tcb.{add_ushort}
use cs416_os.Worker.ThreadList.{sub_ushort}
use cs416_os.Worker.Ring.{Nodes, Ring}
use cs416_os.Worker.Ring as Ring
use cs416_os.Worker.Ring.Refine.{Holds, nothing, nodes, IsFresh, enqueue-Holds, dequeue-Holds}

-- The circular list stores the queue.
pub record IsStored (m : Nodes) (r : Ring) (q : Queue) : Type 0 where
  pub holds : Holds m r q.items
  pub sized : r.size ≡ q.size

enqueue-size :
    (m : Nodes) (r : Ring) (a d : ℕ) → (Ring.enqueue m r a d).1.size ≡ add_ushort r.size 1
unfolding Ring.enqueue
enqueue-size m r a d = ground arith

dequeue-size :
    (m : Nodes) (r : Ring) (x : ℕ) (m' : Nodes) (r' : Ring)
    → Ring.dequeue m r ≡ some (x, m', r')
    → r'.size ≡ sub_ushort r.size 1
unfolding Ring.dequeue Ring.is_empty
dequeue-size m r x m' r' h = elim (Bool-cases (r.size == 0)) [
  | inl empty ↦ absurd (ground arith)
  | inr full ↦ ground arith
]

Holds-not_empty :
    (m : Nodes) (r : Ring) (x : ℕ) (xs : List ℕ) → Holds m r (x ∷ xs) → (r.size == 0) ≡ false
Holds-not_empty m r x xs (nothing s e h) = absurd (cc)
Holds-not_empty m r x xs (nodes fs l d s b e) = ground arith

-- On the circular list that stores a queue, at a newly allocated node and below 65535 threads, the
-- list's enqueue gives a list that stores what the queue's enqueue gives.
pub enqueue-IsStored :
    (m : Nodes) (r : Ring) (q : Queue) (a d : ℕ) (v : IsStored m r q)
    → IsFresh a v.holds
    → r.size + 1 < 2 ^ 16
    → IsStored (Ring.enqueue m r a d).0 (Ring.enqueue m r a d).1 (Queue.enqueue q d)
unfolding Queue.enqueue
enqueue-IsStored m r q a d v fresh room = record {
  holds = enqueue-Holds m r q.items a d v.holds fresh room;
  sized = rw (enqueue-size m r a d, v.sized) refl;
}

dequeue_queue :
    (q : Queue) (x : ℕ) (xs : List ℕ)
    → (q.size == 0) ≡ false
    → q.items ≡ x ∷ xs
    → Queue.dequeue q ≡ some (x, record { size = sub_ushort q.size 1; items = xs })
unfolding Queue.dequeue Queue.is_empty
dequeue_queue q x xs n e = rw (n, e) refl

-- On the circular list that stores a queue with a front thread, both dequeues return that thread,
-- and the list that is left stores the queue that is left.
pub dequeue-IsStored :
    (m : Nodes) (r : Ring) (q : Queue) (x : ℕ) (xs : List ℕ)
    → IsStored m r q
    → q.items ≡ x ∷ xs
    → (m' : Nodes) × (r' : Ring) × (q' : Queue) × (Ring.dequeue m r ≡ some (x, m', r'))
      × (Queue.dequeue q ≡ some (x, q'))
      × IsStored m' r' q'
dequeue-IsStored m r q x xs v e =
    let held : Holds m r (x ∷ xs) = rw e at v.holds in
    let (m', r', runs, left) = dequeue-Holds m r x xs held in
    let n : (q.size == 0) ≡ false = rw (v.sized) at (Holds-not_empty m r x xs held) in
    (
      m',
      r',
      record { size = sub_ushort q.size 1; items = xs },
      runs,
      dequeue_queue q x xs n e,
      record { holds = left; sized = rw (dequeue-size m r x m' r' runs, v.sized) refl },
    )
