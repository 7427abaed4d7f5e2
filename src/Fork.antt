-- ===== src/Fork.antt =====
-- 1-fork: the programs on processes and pipes. A pipe gives its reader what was written to it, in
-- order, and then the end of the file once its writers have closed it.
pub mod Primes
pub mod Xargs
mod Tests
