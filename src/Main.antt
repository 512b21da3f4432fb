-- ===== src/Main.antt =====
-- src/main.c: what a process does from its start to its end.
pub mod Prepare
pub mod Waiting
pub mod Hosts
pub mod SharedFs
pub mod Child
pub mod Fresh
pub mod Connect
pub mod Served
pub mod Answers
pub mod Job
