-- ===== src/Client.antt =====
-- The client program, async_grpc/client/main.cpp.
pub mod Program
pub mod Dispatch
pub mod Tasks
pub mod Calls
pub mod Outcomes
pub mod Reads
pub mod Bidirectional
pub mod Retries
