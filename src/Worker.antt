-- ===== src/Worker.antt =====
-- p2/code/thread-worker.c: user-level threads.
pub mod Tcb
pub mod ThreadList
pub mod Ring
pub mod Queue
pub mod World
pub mod Threads
pub mod Mutex
pub mod Psjf
pub mod Mlfq
pub mod Library
pub mod Steps
mod Tests
