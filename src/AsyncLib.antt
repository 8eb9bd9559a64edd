-- ===== src/AsyncLib.antt =====
-- async_lib/async_lib.hpp: coroutines as tasks that are bound to executors.
pub mod Machine
pub mod Steps
pub mod Dialogue
pub mod Paths
pub mod Nesting
pub mod Resumption
pub mod Owners
pub mod Crossing
