-- ===== src/Header.antt =====
-- The header that the firmware is compiled with, scripts/gen_config_header.py.
pub mod Defines
