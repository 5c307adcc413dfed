-- ===== src/Otb.antt =====
-- The binary map and item format: src/fileloader.h and src/fileloader.cpp.
pub mod PropStream
pub mod Loader
