-- ===== src/MarkerDetect/Ipc.antt =====
-- prototypes/marker-detect/ipc: the requests, the responses and the server of the detector's socket.
pub mod Request
pub mod Response
pub mod Handler
pub mod Sessions
mod Tests
