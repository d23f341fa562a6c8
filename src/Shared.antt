-- ===== src/Shared.antt =====
-- The shared kernel, libs/sentinel_shared: enumerations, the Job entity, the validation rule and the
-- metrics of all services.
pub mod FailureReason
pub mod JobStatus
pub mod Job
pub mod Metrics
pub mod Validator
