-- ===== src/Threads.antt =====
-- threads/thread.c, built without USERPROG: the scheduler. A thread is named by the address of its
-- page. Each function runs from its call to its return, or to the switch to another thread; what
-- follows the switch in its text belongs to the moment when the thread runs again.
pub mod State
pub mod Interrupts
pub mod Schedule
pub mod Invariant
pub mod Leave
pub mod Wake
pub mod Switch
pub mod Ops
pub mod Reap
pub mod Yield
pub mod Interrupt
pub mod Fair
pub mod Sleep
pub mod Create
pub mod Locked
pub mod Newborn
pub mod Birth
pub mod Vectors
