-- ===== src/Backend.antt =====
-- The wire formats of the USB backends: src/backend.
pub mod Usbtmc
pub mod Agilent
pub mod Ni
pub mod Select
pub mod Tests
