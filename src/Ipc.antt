-- ===== src/Ipc.antt =====
-- garwarp-ipc/src/lib.rs: the control protocol, one line of text for a request and one for a reply.
pub mod Health
pub mod Target
pub mod Control
pub mod Response
mod Examples
