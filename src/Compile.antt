-- ===== src/Compile.antt =====
-- internal/compile: the pass that gives the instructions of a program their scratch slots.
pub mod Slots
pub mod Allocate
pub mod Lifetimes
