-- ===== src/Nav.antt =====
-- src/domain: NAV history.
pub mod Dates
pub mod HistoryIndex
