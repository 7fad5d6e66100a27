-- ===== src/Worker/ThreadList.antt =====
-- p2/code/thread-worker.c: `List`, the singly linked list of tcb pointers. Its nodes are reached from
-- the list alone, so they are a list; `size` is the `unsigned short` that the code keeps beside them.
-- `none` is a failed assertion or a NULL dereference.
pub mod Sorted
pub mod Insert
pub mod Remove
use cs416_os.Prelude.{
  ℕ, ◌-◌, ◌+◌, ◌%◌, ◌^◌, ◌==◌, Bool, true, false, not, if◌then◌else◌, Option, none, some, List, [],
  ◌∷◌, ◌>>=◌, ◌>>◌, assert,
}
use cs416_os.Worker.Tcb.{Store, add_ushort, compare_usage, is_blocked}

pub record ThreadList : Type 0 where
  pub size : ℕ
  pub nodes : List ℕ

abbrev pub empty_list : ThreadList
empty_list = record { size = 0; nodes = [] }

abbrev pub is_empty_list : ThreadList → Bool
is_empty_list l = l.size == 0

-- `--size` on an `unsigned short`
abbrev pub sub_ushort : ℕ → ℕ → ℕ
sub_ushort a b = (a + 2 ^ 16 - b) % 2 ^ 16

module _ (h : Store) where
  unfoldable pub find_node : List ℕ → ℕ → Option ℕ
  find_node [] target = none
  find_node (p ∷ ps) target = if (h p).thread_id == target then some p else find_node ps target

  unfoldable pub contains : ThreadList → ℕ → Option ℕ
  unfolding find_node
  contains l target = find_node l.nodes target

  abbrev pub is_found : Option ℕ → Bool
  is_found none = false
  is_found (some p) = true

  -- The loop of `sorted_by_usage`, at `prev` and the nodes from `ptr` on.
  unfoldable pub sorted_from : ℕ → List ℕ → Bool
  sorted_from prev [] = true
  sorted_from prev (ptr ∷ rest) =
      let later = sorted_from ptr rest in if compare_usage (h prev) (h ptr) then later else false

  unfoldable pub sorted_by_usage : ThreadList → Option Bool
  unfolding sorted_from
  sorted_by_usage l = elim l.nodes [ [] ↦ none | front ∷ rest ↦ some (sorted_from front rest) ]

  -- The loop of `insert_by_usage`, over the nodes behind `prev`.
  unfoldable pub insert_behind : ℕ → List ℕ → List ℕ
  insert_behind t [] = t ∷ []
  insert_behind t (ptr ∷ rest) =
      if compare_usage (h t) (h ptr) then t ∷ ptr ∷ rest else ptr ∷ insert_behind t rest

  -- The nodes after the insertion. A list whose `size` is not 0 is read at its front.
  unfoldable pub insert_nodes : ThreadList → ℕ → Option (List ℕ)
  unfolding insert_behind
  insert_nodes l t = if is_empty_list l then some (t ∷ []) else elim l.nodes [
    | [] ↦ none
    | front ∷ rest ↦
        some
          (if compare_usage (h t) (h front) then t ∷ front ∷ rest else front ∷ insert_behind t rest)
  ]

  unfoldable pub insert_by_usage : ThreadList → ℕ → Option ThreadList
  insert_by_usage l t = do
    assert (not (is_found (contains l (h t).thread_id)))
    ns ← insert_nodes l t
    let l' : ThreadList = record { size = add_ushort l.size 1; nodes = ns }
    sorted ← sorted_by_usage l'
    assert sorted
    assert (is_found (contains l' (h t).thread_id))
    some l'

  unfoldable pub insert_at_front : ThreadList → ℕ → ThreadList
  insert_at_front l t = record { size = add_ushort l.size 1; nodes = t ∷ l.nodes }

  -- The nodes without the first one of thread `target`, and its tcb.
  unfoldable pub remove_node : List ℕ → ℕ → Option (ℕ × List ℕ)
  remove_node [] target = none
  remove_node (p ∷ ps) target =
      if (h p).thread_id == target
      then some (p, ps)
      else (remove_node ps target >>= λ r. some (r.0, p ∷ r.1))

  unfoldable pub remove_from : ThreadList → ℕ → Option (ℕ × ThreadList)
  unfolding remove_node
  remove_from l target = do
    assert (not (is_empty_list l))
    assert (is_found (contains l target))
    r ← remove_node l.nodes target
    some (r.0, record { size = sub_ushort l.size 1; nodes = r.1 })

  unfoldable pub first_unblocked : List ℕ → Option ℕ
  first_unblocked [] = none
  first_unblocked (p ∷ ps) = if is_blocked (h p) then first_unblocked ps else some p

  unfoldable pub find_first_unblocked_thread : ThreadList → Option ℕ
  unfolding first_unblocked
  find_first_unblocked_thread l = first_unblocked l.nodes
