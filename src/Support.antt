-- ===== src/Support.antt =====
-- support: the hooks of other languages, which libenvproxy loads.
pub mod Socket
pub mod Python
pub mod Java
