-- ===== src/Crud/Paging.antt =====
-- Cursor pagination of framework/crud.py: a client that follows the cursors.
pub mod Order
pub mod Codec
pub mod Walk
pub mod Runs
pub mod Page
pub mod Steps
pub mod Complete
