-- ===== src/Base.antt =====
-- The parts of base/ that other parts of the program stand on.
pub mod Ring
pub mod Errors
pub mod Input
