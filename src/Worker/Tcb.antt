-- ===== src/Worker/Tcb.antt =====
-- p2/code/thread-worker.h and .c: the thread control block, and the tests on one.
-- A tcb is reached by pointers from several lists, so it stands in a store; address 0 is NULL.
-- A `struct timespec` of CLOCK_MONOTONIC is its number of nanoseconds.
use cs416_os.Prelude.{ℕ, ◌==◌, ltb, leb, Bool, not, ◌&&◌, ◌||◌, if◌then◌else◌, ◌+◌, ◌%◌, ◌^◌}

abbrev pub main_thread : ℕ
main_thread = 1

abbrev pub nonexistent_thread : ℕ
nonexistent_thread = 0

abbrev pub nonexistent_mutex : ℕ
nonexistent_mutex = 0

-- microseconds
abbrev pub time_quantum : ℕ
time_quantum = 10000

abbrev pub queue_levels : ℕ
queue_levels = 4

-- Addition of `unsigned int` and of `unsigned short`.
abbrev pub add_uint : ℕ → ℕ → ℕ
add_uint a b = (a + b) % 2 ^ 32

abbrev pub add_ushort : ℕ → ℕ → ℕ
add_ushort a b = (a + b) % 2 ^ 16

-- `tcb`. Its machine context `uctx` is the platform's.
pub record Tcb : Type 0 where
  pub thread_id : ℕ
  pub ret_value : ℕ
  pub join_tid : ℕ
  pub join_retval : ℕ
  pub seeking_lock : ℕ
  pub quantums_elapsed : ℕ
  pub quantum_amt_used : ℕ
  pub time_of_last_scheduling : ℕ
  pub time_quantum_used_up_fully : Bool
  pub priority_level : ℕ
  pub previously_scheduled : Bool
  pub arrival : ℕ
  pub first_scheduled : ℕ
  pub completion : ℕ

-- The allocated blocks, by address.
abbrev pub Store : Type 0
Store = ℕ → Tcb

abbrev pub update : Store → ℕ → Tcb → Store
update h p t q = if p == q then t else h q

unfoldable pub is_waiting_on_a_thread : Tcb → Bool
is_waiting_on_a_thread t = not (t.join_tid == nonexistent_thread)

unfoldable pub is_waiting_on_a_mutex : Tcb → Bool
is_waiting_on_a_mutex t = not (t.seeking_lock == nonexistent_mutex)

unfoldable pub is_blocked : Tcb → Bool
unfolding is_waiting_on_a_thread is_waiting_on_a_mutex
is_blocked t = is_waiting_on_a_thread t || is_waiting_on_a_mutex t

-- Whether `new` has used no more processor time than `curr`.
unfoldable pub compare_usage : Tcb → Tcb → Bool
compare_usage new curr =
    ltb new.quantums_elapsed curr.quantums_elapsed
    || (new.quantums_elapsed == curr.quantums_elapsed
        && leb new.quantum_amt_used curr.quantum_amt_used)
