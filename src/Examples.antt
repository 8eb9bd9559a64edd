-- ===== src/Examples.antt =====
-- Runs of the models at concrete inputs.
pub mod Tasks
pub mod Interleaving
pub mod Subroutines
pub mod Crossings
pub mod Calls
pub mod Echoes
pub mod Handlers
pub mod Players
pub mod Sessions
pub mod Listening
pub mod Printing
pub mod Clients
pub mod Inputs
