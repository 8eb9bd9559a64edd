-- ===== src/Server.antt =====
-- async_grpc/server: the services that the example server runs.
pub mod VariableService
pub mod EchoService
pub mod Contexts
pub mod Handlers
pub mod Program
