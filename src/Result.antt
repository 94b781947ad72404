-- ===== src/Result.antt =====
-- internal/result: the outcome, remediation and resolution tables of a policy.
pub mod Outcome
pub mod Remediation
pub mod Resolution
