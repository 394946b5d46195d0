-- ===== src/Example.antt =====
-- example: the programs that use the library.
pub mod Echo
