-- ===== src/Lib.antt =====
-- The administration console of the repository xray-routing-panel: the JavaScript front end that
-- shows the state of the control plane and sends its mutations.
--
-- Parts and how they interact. The control plane answers JSON. The client (`Client`) sends requests,
-- turns an answer into a value or an error, reports errors and leaves for the login page. The state of
-- the console (`Console`) calls the client, normalises the snapshot (`Dashboard`) and keeps it; the
-- views read it: the traffic topology (`Topology`), the checklist (`Diagnose`), the
-- host inventory (`Hosts`), and the byte counts, fractions, bars and pills (`Format`). The views
-- (`Views`) turn this state into controls, which start the mutations of `Console`, some after a question
-- of the confirmation dialog. The landing page (`Landing`) and the portal
-- (`Portal`) are programs of their own, which use the same client.
--
-- Files and the code they model:
--   Prelude        names of the libraries, Boolean tests on numbers, lists
--   Js             JSON values and the operators of the language that the code applies to them
--   Format         frontend/src/shared/formatters.js (humanBytes, usageFraction), statusTone
--                  and the palette of frontend/src/shared/tokens.js, StatusPill of frontend/src/admin/components/ui.jsx,
--                  the scales and lines of frontend/src/admin/components/charts/index.jsx, and
--                  frontend/src/shared/ui/TrafficRing.vue
--   Dashboard      frontend/src/admin/lib/dashboard.js: normalizeDashboard, routingSignature, the
--                  totals, the labels and the tones
--   Topology       frontend/src/admin/lib/topology.js: buildTrafficTopology
--   Diagnose       frontend/src/admin/lib/diagnose.js: buildChecklist, summaryTone
--   Hosts          frontend/src/admin/lib/hosts.js: buildHostInventory, hostTone, hostStateLabel
--   Client         frontend/src/shared/apiClient.js: request, reportClientError, safeUrlPath; the redirect of
--                  frontend/src/shared/url.js, and frontend/src/shared/clipboard.js
--   Dialog         frontend/src/admin/components/useDialogFocus.js: the focus of an open dialog
--   Console        frontend/src/admin/state/PanelProvider.jsx: applyDashboard, applyResponse, runAction,
--                  the loads, the actions, the filter and the selection of ports; World
--                  has the steps of the page in any order, and Timers those of its intervals
--   Views          the controls of frontend/src/admin/workspaces (HostsWorkspace.jsx, DeliveryWorkspace.jsx,
--                  RoutingWorkspace.jsx), what OverviewWorkspace.jsx and TrafficWorkspace.jsx show,
--                  CopyField of frontend/src/admin/components/ui.jsx, frontend/src/admin/App.jsx, and the dialogs and the
--                  drawing of frontend/src/admin/components (ConfirmDialog.jsx,
--                  IncidentRecords.jsx, TrafficTopology.jsx)
--   Landing        frontend/src/landing: composables/useReveal.js, sections/SignalCanvas.vue, and the plans
--                  of App.vue and sections/PricingSection.vue
--   Portal         frontend/src/portal/TokenApp.vue: the load and the login of the page of a tenant;
--                  frontend/src/portal/views: the load of an order and the upload of a proof
--                  (OrderDetailView.vue), the renewal (SubscriptionDetailView.vue), and the lists
--                  (PlansView.vue, OrdersView.vue, SubscriptionsView.vue)
--   Tests          runs, and the theorems at concrete inputs
-- A function of the source has the name of the definition in camel case; a comment names it where the
-- two differ. State is passed explicitly; a useState or useRef is a field of `Console`, and each part
-- of an async function between two awaits is one step. A control of a view is a record of its text,
-- whether it is disabled, and the mutation that a click starts, at once or after a question. Where
-- React or Vue renders between two events, the next event sees the rendered state.
--
-- Parameters. `Builtins` is the part of the language's library whose definition is a table or an open
-- grammar: toLowerCase, trim, Number of a text, Date.parse, the quoting of JSON, encodeURIComponent and
-- the text of a TypeError. JSON.parse, toUpperCase and the URL parser are parameters of the client. The test
-- whether a text contains another is one of the port filter, and the focusable elements and the
-- default moves of the browser come with the events of a dialog; a move to the body of the page is one
-- without a `focusin` event. Whether React runs the function that `runAction` hands to setState before
-- setState returns or later is a parameter of each call. Two theorems assume something of these:
-- resume-created, that trimming and lowering the empty text gives the empty text, and ring-gauge, that
-- the number of the empty text is 0.
--
-- Bounds. A number of a payload is a natural number, and a conversion that fails gives NaN; negative
-- and fractional numbers and those above 2^53 are not modelled, so a quotient of byte counts is kept
-- exactly; a chart is given by its inner height, the height less its padding of 40. Time is in
-- microseconds, and on the landing page in any one unit. No recursion runs on fuel but the printing of
-- a number, which has one unit of fuel more than the number, thus more than it has digits. An exception
-- of the source is `none`, or an error value.
--
-- Not modelled: the Python control plane (app, scripts), the generated files of app/static, the
-- rest of the portal (frontend/src/portal), the markup of all views, and the parts of the files above
-- that only draw or register listeners. Of the landing page the curves of the wave are left out, which are products and sines of doubles, and the
-- rounding of a counted number.
pub mod Prelude
pub mod Js
pub mod Format
pub mod Topology
pub mod Dashboard
pub mod Diagnose
pub mod Hosts
pub mod Client
pub mod Dialog
pub mod Console
pub mod Views
pub mod Landing
pub mod Portal
mod Tests
