-- ===== src/Hosts.antt =====
-- frontend/src/admin/lib/hosts.js: the host inventory. `Inventory` has its operations, `Rows` what is
-- proved of the rows, and `State` of their tones and labels.
pub mod Inventory
pub mod Rows
pub mod State
