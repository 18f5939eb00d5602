-- ===== src/Capture.antt =====
-- internal/capture: frames become flow events (Decode), flow events are summed in memory
-- (Aggregator), and the sums are written to the store (Pipeline).
pub mod Aggregator
pub mod Decode
pub mod Pipeline
mod Samples
