-- ===== src/Worker/Ring.antt =====
-- p2/code/thread-worker.c: `Queue`, a circular singly linked list of which only the rear node is
-- kept. The nodes stand in a store, by address; address 0 is NULL. The address that `malloc` returns
-- is an argument of `enqueue`.
pub mod Refine
use cs416_os.Prelude.{ℕ, ◌==◌, Bool, not, if◌then◌else◌, Option, some, ◌>>=◌, ◌>>◌, assert}
use cs416_os.Worker.Tcb.{add_ushort}
use cs416_os.Worker.ThreadList.{sub_ushort}

-- `Node`: `item` is the field `data`.
pub record Node : Type 0 where
  pub item : ℕ
  pub next : ℕ

abbrev pub Nodes : Type 0
Nodes = ℕ → Node

abbrev pub write : Nodes → ℕ → Node → Nodes
write m p n q = if p == q then n else m q

abbrev pub set_next : Nodes → ℕ → ℕ → Nodes
set_next m p v = write m p (record { item = (m p).item; next = v })

pub record Ring : Type 0 where
  pub size : ℕ
  pub rear : ℕ

abbrev pub empty_ring : Ring
empty_ring = record { size = 0; rear = 0 }

unfoldable pub is_empty : Ring → Bool
is_empty q = q.size == 0

unfoldable pub enqueue : Nodes → Ring → ℕ → ℕ → Nodes × Ring
unfolding is_empty
enqueue m q item d =
    let m₁ = write m item (record { item = d; next = 0 }) in
    if is_empty q
    then (set_next m₁ item item, record { size = add_ushort q.size 1; rear = item })
    else (
      set_next (set_next m₁ item (m₁ q.rear).next) q.rear item,
      record { size = add_ushort q.size 1; rear = item },
    )

unfoldable pub dequeue : Nodes → Ring → Option (ℕ × Nodes × Ring)
unfolding is_empty
dequeue m q = do
  assert (not (is_empty q))
  if q.size == 1
      then some
          ((m q.rear).item, set_next m q.rear 0, record { size = sub_ushort q.size 1; rear = 0 })
      else some (
        (m (m q.rear).next).item,
        set_next m q.rear (m (m q.rear).next).next,
        record { size = sub_ushort q.size 1; rear = q.rear },
      )
