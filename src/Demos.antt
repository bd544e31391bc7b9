-- ===== src/Demos.antt =====
-- The programs of crates/patina-rpc/examples: their handlers and services, without the sockets, the
-- logging and the tasks that their `main` sets up.
pub mod PingPong
pub mod Calc
pub mod Echo
