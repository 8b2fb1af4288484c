-- ===== src/Tests.antt =====
-- Concrete runs of the models, and the theorems at concrete inputs.
mod Bitfield
mod Block
mod Bencode
mod Ranges
mod Rate
mod Throttle
mod ThrottleInternal
pub mod ChunkStatistics
mod PartialQueue
mod ChunkSelector
mod Scheduler
mod StringManip
