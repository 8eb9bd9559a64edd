-- ===== src/AsyncGrpc.antt =====
-- async_grpc/async_grpc: executors on completion queues, the client and the server.
pub mod CompletionQueue
pub mod Serving
pub mod Interleaving
pub mod CrossServing
pub mod Status
pub mod Unary
pub mod Retry
pub mod RoundRobin
pub mod Listening
