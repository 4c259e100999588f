-- ===== src/Holdings.antt =====
-- src/domain: what the program knows of holdings without a store.
pub mod Changes
