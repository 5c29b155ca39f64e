-- ===== src/Crt.antt =====
-- The C runtime library, crt/.
pub mod Numfmt
pub mod String
