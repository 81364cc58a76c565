-- ===== src/Dashboard.antt =====
-- The dashboard payload and what the console reads from it
-- (frontend/src/admin/lib/dashboard.js, frontend/src/utils.js).
pub mod Panel
pub mod Signature
pub mod Labels
