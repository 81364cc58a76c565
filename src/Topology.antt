-- ===== src/Topology.antt =====
-- The traffic topology of the console (frontend/src/admin/lib/topology.js): which nodes and edges
-- are drawn, and which of them are marked as confirmed.
pub mod Model
pub mod Texts
pub mod Facts
pub mod Nodes
pub mod Candidates
pub mod Build
pub mod Summary
pub mod Graph
pub mod Evidence
pub mod Links
pub mod Entries
pub mod Warnings
