-- ===== src/Builder.antt =====
-- fakernet_code/data_builder.c: the program that turns a board's byte stream into events.
pub mod Ring
pub mod Pop
pub mod Header
pub mod Event
pub mod Ceres
pub mod Fontus
pub mod Validate
pub mod Manager
pub mod Main
pub mod Stream
