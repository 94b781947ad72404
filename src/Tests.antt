-- ===== src/Tests.antt =====
-- Concrete inputs for the theorems, by component.
mod Truth
mod Result
mod Policy
mod Evidence
mod Predicate
mod Program
mod Columns
mod Reduce
mod Clause
mod Arena
mod Compile
mod Schedule
mod Interner
mod Scheduler
