-- ===== src/Store.antt =====
-- internal/store: the tables of schema.sql as rows in order of insertion, and the statements of
-- the package as functions on them.
pub mod Driver
pub mod Accounts
pub mod Flows
pub mod Hosts
pub mod Alerts
pub mod Settings
pub mod Series
pub mod Dns
pub mod DetectQueries
pub mod Rollup
