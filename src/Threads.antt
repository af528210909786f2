-- ===== src/Threads.antt =====
-- threads/thread.c: user-level threads with a ready queue, wait queues, locks and condition
-- variables. `State` is the data, the other modules named for operations are the code, and `Spec`
-- is the view of the threads as lists that the proofs below `Refine` connect them with.
pub mod State
pub mod Tests
pub mod Seg
pub mod Refine
pub mod Spec
pub mod Sched
pub mod Wait
pub mod Lock
pub mod Interrupt
