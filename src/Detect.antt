-- ===== src/Detect.antt =====
-- internal/detect: detectors that run from time to time over the store and raise alerts.
pub mod Raise
pub mod Exfil
pub mod NewDestination
pub mod PortScan
pub mod DnsAnomaly
pub mod GeoWatchlist
pub mod Beaconing
pub mod Keeps
pub mod Scheduler
pub mod Spaced
pub mod Quiet
pub mod Samples
mod Runs
