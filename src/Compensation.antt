-- ===== src/Compensation.antt =====
-- The compensation of partially completed writes: src/domain/compensation_contracts.py and
-- src/app/compensation_service.py.
pub mod Contract
pub mod Log
pub mod Service
pub mod Reads
pub mod Retries
pub mod Lifecycle
pub mod Retry
pub mod Traces
