-- ===== src/Views.antt =====
-- The views of the console: what their controls do, and when they are disabled. `Controls` has the
-- shared form of a control and of a question; `Hosts`, `Delivery`, `Routing`, `Switches`, `Overview`, `Traffic`
-- and `Shell` are frontend/src/admin/workspaces and frontend/src/admin/App.jsx; `Copying` is CopyField of
-- frontend/src/admin/components/ui.jsx; `Incidents` and `Confirm` are
-- frontend/src/admin/components/IncidentRecords.jsx and ConfirmDialog.jsx, and `Drawing` is
-- frontend/src/admin/components/TrafficTopology.jsx. The other children are about
-- these: `Gates` and `Exclusion` on busy controls, `Outlets` on the exit, `Reading` on reports,
-- `Consent` on questions, `Steady` on the frame, `Drawn` on the drawing, `Copied` on
-- the copy field, `Urgent` on the checklist of the overview, `Period` on a change of the period.
pub mod Controls
pub mod Hosts
pub mod Delivery
pub mod Gates
pub mod Routing
pub mod Switches
pub mod Exclusion
pub mod Outlets
pub mod Incidents
pub mod Reading
pub mod Confirm
pub mod Consent
pub mod Shell
pub mod Overview
pub mod Urgent
pub mod Copying
pub mod Copied
pub mod Traffic
pub mod Period
pub mod Steady
pub mod Drawing
pub mod Drawn
