-- ===== src/Chaos.antt =====
-- include/forger/chaos.hpp and src/chaos.cpp: the blast-radius budget and the probability gate.
pub mod Budget
pub mod Roller
