-- ===== src/Client.antt =====
-- The client of the control plane (frontend/src/shared/apiClient.js): `Model` has its data, `Request`
-- the operations; `Outcome`, `Once` and `Headers` what is proved of them. `Paths` is its
-- `safeUrlPath`, and `Redaction` is about it. `Redirect` and `Clipboard`
-- are frontend/src/shared/url.js and frontend/src/shared/clipboard.js.
pub mod Model
pub mod Request
pub mod Outcome
pub mod Once
pub mod Headers
pub mod Redirect
pub mod Clipboard
pub mod Paths
pub mod Redaction
