-- ===== src/Examples.antt =====
-- Runs of the theorems on a small world: a desk with a few stored readings, one field, a cache that
-- keeps what it is given, and an Arroyo that agrees to everything.
pub mod Shelf
pub mod Desk
mod Pipelines
mod Readings
mod Requests
mod Stores
mod Vault
mod Start
mod Turns
mod Sets
