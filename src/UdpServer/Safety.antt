-- ===== src/UdpServer/Safety.antt =====
-- A message crashes a slave at most, and the invariant of the state holds after each of them: that is what
-- is called safe here.
pub mod Parts
pub mod Ack
pub mod Term
pub mod CreateLink
pub mod Register
pub mod Serve
pub mod Rounds
