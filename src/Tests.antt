-- ===== src/Tests.antt =====
-- Runs of the models on concrete snapshots, answers and clicks.
mod Samples
mod Format
mod Charts
mod Topology
mod Diagnose
mod Client
mod Browser
mod Dialog
mod Hosts
mod Selection
mod Console
mod Views
mod Traffic
mod Timers
mod Copying
mod Orders
mod Renewal
mod Lists
mod Creation
mod Rate
mod Landing
mod Portal
