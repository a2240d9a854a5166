-- ===== src/Engine.antt =====
-- include/forger/engine.hpp and src/engine.cpp.
pub mod State
pub mod Tick
pub mod Steps
pub mod Frame
pub mod Budget
pub mod ClientInvariant
pub mod Passive
pub mod Interrupt
pub mod Strikes
