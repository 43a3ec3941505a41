-- ===== src/Client.antt =====
-- crates/libenvproxy: the library that stands in front of `getenv`.
pub mod Getenv
pub mod Hooks
