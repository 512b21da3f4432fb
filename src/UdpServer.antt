-- ===== src/UdpServer.antt =====
-- src/udp_server.c: the server that every process runs. A handler runs to its end before the next
-- one starts.
pub mod Message
pub mod Ack
pub mod Term
pub mod CreateLink
pub mod Register
pub mod Dispatch
pub mod Loop
pub mod Allowed
pub mod Safety
pub mod Wire
pub mod OnExit
pub mod KeepAlive
pub mod Runs
pub mod NoExit
pub mod Authority
pub mod Links
pub mod Kept
