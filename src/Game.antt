-- ===== src/Game.antt =====
-- game: a frame based program with coroutines.
pub mod Executor
pub mod CharacterService
pub mod CharacterServiceGrpc
pub mod Character
pub mod InputHandler
pub mod Program
