-- ===== src/Worker/Queue.antt =====
-- p2/code/thread-worker.c: `Queue` as the schedulers see it, the tcbs that it holds from front to
-- rear. `Ring` is the circular list that stores it.
pub mod Stored
use cs416_os.Prelude.{
  ℕ, ◌==◌, Bool, not, if◌then◌else◌, Option, none, some, List, [], ◌∷◌, ◌++◌, ◌>>=◌, ◌>>◌, assert,
}
use cs416_os.Worker.Tcb.{add_ushort}
use cs416_os.Worker.ThreadList.{sub_ushort}

pub record Queue : Type 0 where
  pub size : ℕ
  pub items : List ℕ

abbrev pub empty_queue : Queue
empty_queue = record { size = 0; items = [] }

unfoldable pub is_empty : Queue → Bool
is_empty q = q.size == 0

unfoldable pub enqueue : Queue → ℕ → Queue
enqueue q d = record { size = add_ushort q.size 1; items = q.items ++ (d ∷ []) }

unfoldable pub dequeue : Queue → Option (ℕ × Queue)
unfolding is_empty
dequeue q = do
  assert (not (is_empty q))
  elim q.items [ [] ↦ none | x ∷ xs ↦ some (x, record { size = sub_ushort q.size 1; items = xs }) ]
