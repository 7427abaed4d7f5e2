-- ===== src/Kern.antt =====
-- 3-sched/kern: the environments of the JOS kernel and the scheduler that the course work adds,
-- as one processor sees them.
pub mod Env
pub mod Text
pub mod Words
pub mod Chain
pub mod Pmap
pub mod Console
pub mod Machine
pub mod Sched
pub mod Syscall
mod Tests
