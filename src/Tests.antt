-- ===== src/Tests.antt =====
-- Runs of the model on inputs of the repository's tests, and the theorems at concrete inputs.
mod HttpRuns
pub mod Example
pub mod Documents
mod EngineWitnesses
mod PartWitnesses
mod HttpWitnesses
mod ConfigWitnesses
pub mod ClientWitnesses
mod DockerWitnesses
mod JsonRuns
mod MainWitnesses
pub mod SocketWitnesses
mod DeliveryWitnesses
mod ListenerWitnesses
mod WiringWitnesses
