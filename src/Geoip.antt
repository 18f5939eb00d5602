-- ===== src/Geoip.antt =====
-- tools/geoip-gen/main.go and internal/geoip/geoip.go: the table of IPv4 ranges with their
-- countries, how it is built from the registries' records, written, read back and searched.
pub mod Table
pub mod Delegated
pub mod Lookup
pub mod Codec
pub mod Owner
pub mod Merge
pub mod Chain
mod Samples
