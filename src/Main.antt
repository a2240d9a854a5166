-- ===== src/Main.antt =====
-- main.cpp: the options, the scheduler, and the program from start-up to exit.
pub mod Args
pub mod Usage
pub mod Scheduler
pub mod Report
pub mod Run
pub mod Wiring
pub mod Listener
