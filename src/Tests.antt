-- ===== src/Tests.antt =====
-- A small state of the program, and the theorems and the code at it.
pub mod Samples
pub mod Witnesses
pub mod Components
pub mod Pages
pub mod Runs
