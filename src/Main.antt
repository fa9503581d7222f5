-- ===== src/Main.antt =====
-- `main` of wfey.c: its options, its division of the cores among threads, and its report.
pub mod Args
pub mod Cores
pub mod Life
pub mod Report
pub mod Start
