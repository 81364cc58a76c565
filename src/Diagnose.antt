-- ===== src/Diagnose.antt =====
-- frontend/src/admin/lib/diagnose.js: the list of what to check first. `Checks` has the single
-- checks, `Checklist` the ordered list, `Order` and `Clear` what is proved of it.
pub mod Checks
pub mod Checklist
pub mod Order
pub mod Clear
