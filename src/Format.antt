-- ===== src/Format.antt =====
-- The formatters and tones that the pages share (frontend/src/shared/formatters.js,
-- frontend/src/shared/tokens.js), the charts of frontend/src/admin/components/charts/index.jsx, and the ring of
-- frontend/src/shared/ui/TrafficRing.vue.
pub mod Bytes
pub mod Rounding
pub mod Pill
pub mod Charts
pub mod Scales
pub mod Series
pub mod Frame
pub mod Ring
pub mod Rings
pub mod Palette
