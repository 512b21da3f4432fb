-- ===== src/Tests.antt =====
-- Concrete runs.
pub mod Sample
pub mod Strings
pub mod Server
pub mod Keeping
pub mod Links
pub mod Timers
pub mod Network
pub mod Start
pub mod Waiting
pub mod Hosts
pub mod Child
pub mod Messages
pub mod Wire
pub mod Job
pub mod Files
pub mod Begin
