-- ===== src/Truth.antt =====
-- internal/truth: bitplanes, their operations, and the mask of uncertainty reasons.
pub mod Planes
pub mod Reason
