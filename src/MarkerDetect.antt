-- ===== src/MarkerDetect.antt =====
-- prototypes/marker-detect: the detections of markers, and their protocol.
pub mod Detection
pub mod Normalize
pub mod Exact
pub mod Ipc
mod Tests
