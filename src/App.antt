-- ===== src/App.antt =====
-- The application: app/app.go and app/export.go.
pub mod Names
pub mod Wiring
pub mod Orders
pub mod Accounts
pub mod Keepers
pub mod Export
pub mod Services
pub mod Start
