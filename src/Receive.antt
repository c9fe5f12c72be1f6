-- ===== src/Receive.antt =====
-- pkg/receive: the receiver of remote-written series. The hashring that assigns them to nodes, the
-- handler that forwards and replicates them, and the errors it reports.
pub mod Errors
pub mod Hashring
pub mod Handler
pub mod Forward
mod Tests
