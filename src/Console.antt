-- ===== src/Console.antt =====
-- The state of the console and its mutations (frontend/src/admin/state/PanelProvider.jsx): `State`, `Apply`,
-- `Actions`, `Ports`, `Tasks` and `World`, and its intervals, `Timers`. The other children are about these:
-- `Frame`, `Busy`, `Guarded` and `Latest` on the steps, `Selection`, `Creating`, `Creation` and `Conflict` on the
-- selected port, `Rate` on the traffic rate, and `Cleanup`, `Rendered` and `Timed` on the intervals.
pub mod State
pub mod Apply
pub mod Actions
pub mod Ports
pub mod Tasks
pub mod World
pub mod Frame
pub mod Busy
pub mod Guarded
pub mod Latest
pub mod Selection
pub mod Creating
pub mod Creation
pub mod Conflict
pub mod Rate
pub mod Timers
pub mod Cleanup
pub mod Rendered
pub mod Timed
